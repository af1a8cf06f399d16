-- ===== src/Results/Viewers.antt =====
-- No action lets anybody in.
use purecheckers.Base.{
  ℕ, ◌≡◌, refl, ap, sym, subst, ◌∙◌, if_ind, Bool, true, not, ◌&&◌, ◌||◌, leb, ◌==◌, ◌∈◌, Option,
  none, some, List, [], ◌∷◌, map, inl, inr, arith, is_empty, all_of, any_of, filter, mem-map,
  map-mem, filter-mem, mem-filter, append-mem, mem-append_left, mem-append_right,
}
use purecheckers.Results.{
  valid_id, Player, Spectator, Result, Run, Users, Role, player_role, spectator_role, Notice,
  Action, request_rematch_action, dismiss_action, expire_action, is_open, is_closed, is_starting,
  is_valid, normalize_result_state, result_viewers, close_if_empty, expired, expire, dismiss,
  request_rematch, asked, ask, start_rematch, find_player, act, notices_of, normalized,
  with_notices, transition_result, withdraw, withdraw_player, withdraw_all, gone,
}
use purecheckers.Results.Withdraw.{gone_hidden}

-- Every player of `ps'` who views the result does so in `ps`.
abbrev Views : List Player → List Player → Type 0
Views ps ps' =
    (q : Player)
    → q ∈ ps'
    → q.viewing ≡ true
    → (p : Player) × (p ∈ ps) × (p.viewing ≡ true) × (q.user_id ≡ p.user_id)

step_over : (p : Player) (ps ps' : List Player) → Views ps ps' → Views (p ∷ ps) (p ∷ ps')
step_over p ps ps' v q (inl e) t =
    (p, inl refl, sym (ap (λ z. z.viewing) e) ∙ t, ap (λ z. z.user_id) e)
step_over p ps ps' v q (inr m) t = let (r, k, w, i) = v q m t in (r, inr k, w, i)

same-Views : (ps : List Player) → Views ps ps
same-Views ps q m t = (q, m, t, refl)

gone_over : (p : Player) (ps : List Player) → Views (p ∷ ps) (gone p ∷ ps)
gone_over p ps q (inl e) t = absurd (ground (arith, ap (λ z. z.viewing) e, gone_hidden p, t))
gone_over p ps q (inr m) t = (q, inr m, t, refl)

asked_over : (p : Player) (ps : List Player) → Views (p ∷ ps) (record p { requested = true } ∷ ps)
asked_over p ps q (inl e) t = (p, inl refl, sym (ap (λ z. z.viewing) e) ∙ t, ap (λ z. z.user_id) e)
asked_over p ps q (inr m) t = (q, inr m, t, refl)

withdraw_player-Views : (user : ℕ) (ps : List Player) → Views ps (withdraw_player user ps)
unfolding withdraw_player
withdraw_player-Views user [] = same-Views []
withdraw_player-Views user (p ∷ ps) =
    if_ind {A = List Player} (Views (p ∷ ps)) (p.user_id == user) (λ _. gone_over p ps)
      (λ _. step_over p ps (withdraw_player user ps) (withdraw_player-Views user ps))

ask-Views : (user : ℕ) (ps : List Player) → Views ps (ask user ps)
unfolding ask
ask-Views user [] = same-Views []
ask-Views user (p ∷ ps) =
    if_ind {A = List Player} (Views (p ∷ ps)) (p.user_id == user) (λ _. asked_over p ps)
      (λ _. step_over p ps (ask user ps) (ask-Views user ps))

-- Every viewer of `s'` views `s`, in the same role.
abbrev pub Stay : Result → Result → Type 0
Stay s s' = (v : ℕ × Role) → v ∈ result_viewers s' → v ∈ result_viewers s

Views-Stay :
    (s s' : Result)
    → Views s.players s'.players
    → ((w : Spectator) → w ∈ s'.spectators → w ∈ s.spectators)
    → Stay s s'
unfolding result_viewers
Views-Stay s s' p w v m =
    let role : Player → ℕ × Role = λ p. (p.user_id, player_role) in
    let watcher : Spectator → ℕ × Role = λ w. (w.user_id, spectator_role) in
    let viewing : Player → Bool = λ p. p.viewing in
    let before = map role (filter viewing s.players) in
    let watching = map watcher s.spectators in
    elim (append-mem v (map role (filter viewing s'.players)) (map watcher s'.spectators) m) [
      | inl k ↦
          let (q, f, e) = map-mem role (filter viewing s'.players) v k in
          let g = filter-mem viewing s'.players q f in
          let (r, i, t, same) = p q g.0 g.1 in
          mem-append_left v before watching (
            subst (λ z. z ∈ before) (ap (λ z. (z, player_role)) (sym same) ∙ sym e)
              (mem-map role (filter viewing s.players) r (mem-filter viewing s.players r i t)))
      | inr k ↦
          let (x, f, e) = map-mem watcher s'.spectators v k in
          mem-append_right v before watching
            (subst (λ z. z ∈ watching) (sym e) (mem-map watcher s.spectators x (w x f)))
    ]

withdraw-Stay : (user : ℕ) (s : Result) → Stay s (withdraw user s)
unfolding withdraw
withdraw-Stay user s =
    Views-Stay s (withdraw user s) (withdraw_player-Views user s.players)
      (λ w m. (filter-mem (λ x. not (x.user_id == user)) s.spectators w m).0)

withdraw_all-Stay : (us : List ℕ) (s : Result) → Stay s (withdraw_all us s)
unfolding withdraw_all
withdraw_all-Stay [] s v m = m
withdraw_all-Stay (u ∷ us) s v m = withdraw-Stay u s v (withdraw_all-Stay us (withdraw u s) v m)

close-Stay : (s s' : Result) → Stay s s' → Stay s (close_if_empty s')
unfolding close_if_empty result_viewers
close-Stay s s' k = if_ind {A = Result} (Stay s) (is_empty (result_viewers s')) (λ _. k) (λ _. k)

start-Stay :
    (key : List ℕ) (run : Run) (s s' : Result) → Stay s s' → Stay s (start_rematch key run s')
unfolding result_viewers
start-Stay key run s s' k =
    if_ind {A = Result} (Stay s) (all_of (λ p. p.requested) s'.players) (λ _. k) (λ _. k)

abbrev Stays : Result → Option Result → Type 0
Stays s none = Unit {0}
Stays s (some s') = Stay s s'

asked-Stays :
    (s : Result) (run : Run) (users : Users) (user : ℕ) (key : List ℕ) (o : Option Player)
    → Stays s (asked user s run users key o)
unfolding asked
asked-Stays s run users user key none = tt
asked-Stays s run users user key (some p) =
    let after = record s { players = ask user s.players } in
    if_ind (Stays s) (not p.viewing || users.is_bot p.user_id) (λ _. tt)
      (λ _.
        if_ind (Stays s) (any_of (λ q. not (users.is_bot q.user_id) && not q.viewing) s.players)
          (λ _. tt)
          (λ _.
            start-Stay key run s after (Views-Stay s after (ask-Views user s.players) (λ w m. m))))

act-Stays :
    (s : Result) (action : Action) (run : Run) (users : Users) (now : ℕ) (key : List ℕ)
    → Stays s (act s action run users now key)
unfolding act request_rematch dismiss expire
act-Stays s (request_rematch_action user) run users now key =
    if_ind (Stays s) (not (is_open s.status) || leb s.deadline now) (λ _. tt)
      (λ _. asked-Stays s run users user key (find_player user s.players))
act-Stays s (dismiss_action user) run users now key =
    if_ind (Stays s) (not (any_of (λ v. v.0 == user) (result_viewers s))) (λ _. tt)
      (λ _.
        if_ind (Stays s) (is_starting s.status && any_of (λ p. p.user_id == user) s.players)
          (λ _. tt) (λ _. close-Stay s (withdraw user s) (withdraw-Stay user s)))
act-Stays s expire_action run users now key =
    if_ind (Stays s)
      (is_starting s.status
        && any_of (λ user. any_of (λ p. p.user_id == user) s.players) (expired s now))
      (λ _. tt)
      (λ _. close-Stay s (withdraw_all (expired s now) s) (withdraw_all-Stay (expired s now) s))

abbrev Outcome : Result → Run → Users → Option (Result × List Notice) → Type 0
Outcome s run users none = Unit {0}
Outcome s run users (some (s', ns)) = (is_valid s' run users ≡ true) × Stay s s'

normalized-Outcome :
    (s : Result) (run : Run) (users : Users) (ns : List Notice) (o : Option Result)
    → Stays s o
    → Outcome s run users (with_notices ns (normalized o run users))
unfolding normalize_result_state
normalized-Outcome s run users ns none k = tt
normalized-Outcome s run users ns (some s') k =
    if_ind (λ z. Outcome s run users (with_notices ns z)) (is_valid s' run users) (λ v. (v, k))
      (λ _. tt)

-- An action that is taken leaves a valid result, and everyone who then views it viewed it before, in
-- the same role.
pub transition_result-Stay :
    (s s' : Result) (action : Action) (run : Run) (users : Users) (now : ℕ) (key : List ℕ)
    (ns : List Notice)
    → transition_result s action run users now key ≡ some (s', ns)
    → (is_valid s' run users ≡ true) × Stay s s'
unfolding transition_result
transition_result-Stay s s' action run users now key ns e = subst (Outcome s run users) e (
    if_ind (Outcome s run users) (not (valid_id now) || is_closed s.status) (λ _. tt)
      (λ _.
        normalized-Outcome s run users (notices_of s action run now)
          (act s action run users now key) (act-Stays s action run users now key)))
