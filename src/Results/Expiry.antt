-- ===== src/Results/Expiry.antt =====
-- What becomes of a result at its deadline.
use purecheckers.Base.{
  ℕ, ◌≡◌, refl, ap, sym, ◌∙◌, if_ind, true, false, not, ◌||◌, leb, Bool-cases, Option, some, List,
  [], ◌∷◌, ◌++◌, map, inl, inr, arith, all_of, any_of, filter, includes, includes-mem, all_of_lem,
  mem-filter, mem-map, mem-append_left, mem-append_right,
}
use purecheckers.Results.{
  Player, Spectator, Result, Run, Users, Role, player_role, spectator_role, Notice, closed,
  is_closed, is_starting, player_ids, valid_id, valid_players, valid_spectators, valid_frame,
  valid_rematch, valid_phase, is_valid, normalize_result_state, result_viewers, close_if_empty,
  expired, expire, expire_action, act, notices_of, transition_result, withdraw_all,
}
use purecheckers.Results.Withdraw.{
  viewers_in, spectators_in, Emptied, withdraw_all-Emptied, and_both,
}

pub record IsValid (s : Result) (run : Run) (users : Users) : Type 0 where
  pub framed : valid_frame run s.deadline (player_ids s.players) ≡ true
  pub playing : valid_players users [] s.players ≡ true
  pub watching :
      valid_spectators users run.room_id s.deadline (player_ids s.players) s.spectators ≡ true
  pub offering : valid_rematch run s.rematch ≡ true
  pub phased : valid_phase users s s.status ≡ true

pub is_valid-IsValid :
    (s : Result) (run : Run) (users : Users) → is_valid s run users ≡ true → IsValid s run users
unfolding is_valid
is_valid-IsValid s run users h = record {
  framed = ground (arith, h);
  playing = ground (arith, h);
  watching = ground (arith, h);
  offering = ground (arith, h);
  phased = ground (arith, h);
}

pub IsValid-is_valid :
    (s : Result) (run : Run) (users : Users) → IsValid s run users → is_valid s run users ≡ true
unfolding is_valid
IsValid-is_valid s run users v =
    ground (arith, v.framed, v.playing, v.watching, v.offering, v.phased)

viewing_all :
    (ps : List Player) (us : List ℕ)
    → viewers_in (player_ids (filter (λ p. p.viewing) ps) ++ us) ps ≡ true
viewing_all ps us =
    let seen = filter (λ p. p.viewing) ps in
    all_of_lem (λ p. not p.viewing || includes (player_ids seen ++ us) p.user_id) ps
      (λ p m. elim (Bool-cases p.viewing) [
        | inl t ↦ ground (
          arith,
          t,
          includes-mem (player_ids seen ++ us) p.user_id (
              mem-append_left p.user_id (player_ids seen) us
                (mem-map (λ q. q.user_id) seen p (mem-filter (λ q. q.viewing) ps p m t))),
        )
        | inr f ↦ ground (arith, f)
      ])

watching_all :
    (ws : List Spectator) (us : List ℕ) → spectators_in (us ++ map (λ w. w.user_id) ws) ws ≡ true
watching_all ws us =
    all_of_lem (λ w. includes (us ++ map (λ x. x.user_id) ws) w.user_id) ws
      (λ w m.
        includes-mem (us ++ map (λ x. x.user_id) ws) w.user_id (
          mem-append_right w.user_id us (map (λ x. x.user_id) ws)
            (mem-map (λ x. x.user_id) ws w m)))

-- No spectator stays longer than the players.
all_late :
    (users : Users) (room : Option ℕ) (deadline now : ℕ) (seen : List ℕ) (ws : List Spectator)
    → valid_spectators users room deadline seen ws ≡ true
    → leb deadline now ≡ true
    → filter (λ w. leb w.deadline now) ws ≡ ws
unfolding valid_spectators filter
all_late users room deadline now seen [] v l = refl
all_late users room deadline now seen (w ∷ ws) v l =
    let rest : valid_spectators users room deadline (w.user_id ∷ seen) ws ≡ true =
      ground (arith, v) in
    if_ind {A = List Spectator} (λ z. z ≡ w ∷ ws) (leb w.deadline now)
      (λ _. ap (λ z. w ∷ z) (all_late users room deadline now (w.user_id ∷ seen) ws rest l))
      (λ f. absurd (ground (arith, f, v, l)))

hidden :
    (ps : List Player)
    → viewers_in [] ps ≡ true
    → (filter (λ p. p.viewing) ps ≡ []) × (any_of (λ p. p.viewing) ps ≡ false)
unfolding all_of filter any_of includes
hidden [] h = (refl, refl)
hidden (p ∷ ps) h =
    let k = and_both (not p.viewing || false) (viewers_in [] ps) h in
    let rest = hidden ps k.1 in
    let off : p.viewing ≡ false = ground (arith, k.0) in rw (off, any_of, filter) rest

nobody : (ws : List Spectator) → spectators_in [] ws ≡ true → ws ≡ []
unfolding all_of includes
nobody [] h = refl
nobody (w ∷ ws) h = absurd (ground (arith, h))

module _ {A B : Type 0} where
  map-append : (f : A → B) (xs ys : List A) → map f (xs ++ ys) ≡ map f xs ++ map f ys
  map-append f [] ys = refl
  map-append f (x ∷ xs) ys = ap (λ z. f x ∷ z) (map-append f xs ys)

module _ {A B C : Type 0} where
  map-map : (g : B → C) (f : A → B) (xs : List A) → map g (map f xs) ≡ map (λ x. g (f x)) xs
  map-map g f [] = refl
  map-map g f (x ∷ xs) = ap (λ z. g (f x) ∷ z) (map-map g f xs)

abbrev pub viewer_ids : Result → List ℕ
viewer_ids s = map (λ (v : ℕ × Role). v.0) (result_viewers s)

all_expired :
    (s : Result) (now : ℕ)
    → leb s.deadline now ≡ true
    → filter (λ w. leb w.deadline now) s.spectators ≡ s.spectators
    → expired s now
      ≡ player_ids (filter (λ p. p.viewing) s.players) ++ map (λ w. w.user_id) s.spectators
unfolding expired
all_expired s now l late = rw (l, late) refl

-- At the deadline everyone who views the result is expired.
ids_of_viewers :
    (s : Result)
    → viewer_ids s
      ≡ player_ids (filter (λ p. p.viewing) s.players) ++ map (λ w. w.user_id) s.spectators
unfolding result_viewers
ids_of_viewers s =
    let seen = filter (λ (p : Player). p.viewing) s.players in
    let role : Player → ℕ × Role = λ p. (p.user_id, player_role) in
    let watcher : Spectator → ℕ × Role = λ w. (w.user_id, spectator_role) in
    map-append (λ (v : ℕ × Role). v.0) (map role seen) (map watcher s.spectators)
    ∙ ap (λ z. z ++ map (λ (v : ℕ × Role). v.0) (map watcher s.spectators))
        (map-map (λ (v : ℕ × Role). v.0) role seen)
    ∙ ap (λ z. player_ids seen ++ z) (map-map (λ (v : ℕ × Role). v.0) watcher s.spectators)

no_viewers : (users : Users) (s s' : Result) → Emptied users s s' → result_viewers s' ≡ []
unfolding result_viewers
no_viewers users s s' e =
    rw ((hidden s'.players e.players).0, nobody s'.spectators e.spectators) refl

shut_no_viewers :
    (users : Users) (s s' : Result)
    → Emptied users s s'
    → result_viewers (record s' { status = closed }) ≡ []
unfolding result_viewers
shut_no_viewers users s s' e = no_viewers users s s' e

closed-IsValid :
    (users : Users) (run : Run) (s s' : Result)
    → IsValid s run users
    → Emptied users s s'
    → IsValid (record s' { status = closed }) run users
unfolding valid_spectators valid_phase
closed-IsValid users run s s' v e = record {
  framed =
      ap (λ z. valid_frame run z (player_ids s'.players)) e.same_deadline
      ∙ ap (valid_frame run s.deadline) e.same_ids
      ∙ v.framed;
  playing = e.valid;
  watching =
      ap (valid_spectators users run.room_id s'.deadline (player_ids s'.players))
        (nobody s'.spectators e.spectators);
  offering = ap (valid_rematch run) e.same_rematch ∙ v.offering;
  phased = rw ((hidden s'.players e.players).1, nobody s'.spectators e.spectators) refl;
}

abbrev pub told : Run → ℕ → Notice
told run user = record { user_id = user; game_id = run.id }

-- The action is taken: the result closes, and everyone who viewed it has a notice.
pub record Closes (s : Result) (run : Run) (after : Option (Result × List Notice)) : Type 0 where
  pub result : Result
  pub taken : after ≡ some (result, map (told run) (viewer_ids s))
  pub is_shut : result.status ≡ closed
  pub no_viewer : result_viewers result ≡ []

late-Emptied :
    (s : Result) (run : Run) (users : Users) (now : ℕ)
    → IsValid s run users
    → expired s now
      ≡ player_ids (filter (λ p. p.viewing) s.players) ++ map (λ w. w.user_id) s.spectators
    → Emptied users s (withdraw_all (expired s now) s)
late-Emptied s run users now v us =
    withdraw_all-Emptied users (expired s now) s v.playing
      (ap (λ z. viewers_in z s.players) us
        ∙ viewing_all s.players (map (λ w. w.user_id) s.spectators))
      (ap (λ z. spectators_in z s.spectators) us
        ∙ watching_all s.spectators (player_ids (filter (λ p. p.viewing) s.players)))

late_expire :
    (s : Result) (users : Users) (now : ℕ)
    → is_starting s.status ≡ false
    → Emptied users s (withdraw_all (expired s now) s)
    → expire s now ≡ some (record (withdraw_all (expired s now) s) { status = closed })
unfolding expire close_if_empty
late_expire s users now t e = rw (t, no_viewers users s (withdraw_all (expired s now) s) e) refl

-- At or after its deadline, the expiry of a valid result that neither is closed nor starts a rematch is
-- taken: the result closes, nobody views it any more, and each viewer gets one notice.
pub expire-Closes :
    (s : Result) (run : Run) (users : Users) (now : ℕ) (key : List ℕ)
    → is_valid s run users ≡ true
    → is_closed s.status ≡ false
    → is_starting s.status ≡ false
    → valid_id now ≡ true
    → leb s.deadline now ≡ true
    → Closes s run (transition_result s expire_action run users now key)
unfolding transition_result act notices_of normalize_result_state
expire-Closes s run users now key h c t n l =
    let v = is_valid-IsValid s run users h in
    let us = all_expired s now l (
      all_late users run.room_id s.deadline now (player_ids s.players) s.spectators v.watching l) in
    let e = late-Emptied s run users now v us in
    let shut = record (withdraw_all (expired s now) s) { status = closed } in
    record {
      result = shut;
      taken =
          rw
            (
              n,
              c,
              late_expire s users now t e,
              IsValid-is_valid shut run users
                  (closed-IsValid users run s (withdraw_all (expired s now) s) v e),
            )
            (ap (λ z. some (shut, map (told run) z)) (us ∙ sym (ids_of_viewers s)));
      is_shut = refl;
      no_viewer = shut_no_viewers users s (withdraw_all (expired s now) s) e;
    }
