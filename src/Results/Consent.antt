-- ===== src/Results/Consent.antt =====
-- Who starts a rematch, and that no action lets anybody in.
use purecheckers.Base.{
  ℕ, ◌≡◌, refl, ap, sym, subst, ◌∙◌, if_ind, true, false, not, ◌&&◌, ◌||◌, leb, ◌==◌, Option, none,
  some, List, [], ◌∷◌, arith, is_empty, all_of, any_of,
}
use purecheckers.Results.{
  valid_id, Player, Result, Run, Users, Notice, Action, request_rematch_action, dismiss_action,
  expire_action, opened, starting, rematched, closed, Status, is_open, is_closed, is_starting,
  valid_phase, is_valid, normalize_result_state, result_viewers, close_if_empty, expired, expire,
  dismiss, request_rematch, asked, find_player, act, notices_of, normalized, with_notices,
  transition_result, withdraw, withdraw_all,
}
use purecheckers.Results.Expiry.{is_valid-IsValid}

-- What the start of a rematch asks for.
pub record IsAgreed (s : Result) (action : Action) (users : Users) (now : ℕ) (s' : Result)
    : Type 0 where
  pub was_open : s.status ≡ opened
  pub in_time : leb s.deadline now ≡ false
  pub asker : ℕ
  pub by_request : action ≡ request_rematch_action asker
  pub consent : all_of (λ p. users.is_bot p.user_id || p.viewing && p.requested) s'.players ≡ true

-- Of a result before its check: it starts a rematch only by a request in time, or already did.
abbrev Starts : Result → Action → ℕ → Option Result → Type 0
Starts s action now none = Unit {0}
Starts s action now (some s') =
    s'.status ≡ starting
    → is_starting s.status ≡ false
    → (s.status ≡ opened)
      × (leb s.deadline now ≡ false)
      × ((asker : ℕ) × (action ≡ request_rematch_action asker))

withdraw_status : (u : ℕ) (s : Result) → (withdraw u s).status ≡ s.status
unfolding withdraw
withdraw_status u s = refl

withdraw_all-status : (us : List ℕ) (s : Result) → (withdraw_all us s).status ≡ s.status
unfolding withdraw_all withdraw
withdraw_all-status [] s = refl
withdraw_all-status (u ∷ us) s = withdraw_all-status us (withdraw u s)

same_status-Starts :
    (s : Result) (action : Action) (now : ℕ) (s' : Result)
    → s'.status ≡ s.status
    → Starts s action now (some (close_if_empty s'))
unfolding close_if_empty
same_status-Starts s action now s' e =
    if_ind {A = Result} (λ z. Starts s action now (some z)) (is_empty (result_viewers s'))
      (λ _ a n. absurd (ground (arith, a)))
      (λ _ a n. absurd (ground (arith, ap is_starting (sym e ∙ a), n)))

open_status : (t : Status) → is_open t ≡ true → t ≡ opened
open_status opened h = refl
open_status starting h = absurd (ground (arith, h))
open_status rematched h = absurd (ground (arith, h))
open_status closed h = absurd (ground (arith, h))

asked-Starts :
    (s : Result) (run : Run) (users : Users) (user now : ℕ) (key : List ℕ) (o : Option Player)
    → s.status ≡ opened
    → leb s.deadline now ≡ false
    → Starts s (request_rematch_action user) now (asked user s run users key o)
unfolding asked
asked-Starts s run users user now key none e l = tt
asked-Starts s run users user now key (some p) e l =
    let P = Starts s (request_rematch_action user) now in
    if_ind P (not p.viewing || users.is_bot p.user_id) (λ _. tt)
      (λ _.
        if_ind P (any_of (λ q. not (users.is_bot q.user_id) && not q.viewing) s.players) (λ _. tt)
          (λ _ _ _. (e, l, (user, refl))))

act-Starts :
    (s : Result) (action : Action) (run : Run) (users : Users) (now : ℕ) (key : List ℕ)
    → Starts s action now (act s action run users now key)
unfolding act request_rematch dismiss expire
act-Starts s (request_rematch_action user) run users now key =
    if_ind (Starts s (request_rematch_action user) now)
      (not (is_open s.status) || leb s.deadline now) (λ _. tt)
      (λ f.
        asked-Starts s run users user now key (find_player user s.players)
          (open_status s.status (ground (arith, f))) (ground (arith, f)))
act-Starts s (dismiss_action user) run users now key =
    let P = Starts s (dismiss_action user) now in
    if_ind P (not (any_of (λ v. v.0 == user) (result_viewers s))) (λ _. tt)
      (λ _.
        if_ind P (is_starting s.status && any_of (λ p. p.user_id == user) s.players) (λ _. tt)
          (λ _.
            same_status-Starts s (dismiss_action user) now (withdraw user s)
              (withdraw_status user s)))
act-Starts s expire_action run users now key =
    if_ind (Starts s expire_action now)
      (is_starting s.status
        && any_of (λ user. any_of (λ p. p.user_id == user) s.players) (expired s now))
      (λ _. tt)
      (λ _.
        same_status-Starts s expire_action now (withdraw_all (expired s now) s)
          (withdraw_all-status (expired s now) s))

-- Of an outcome: a rematch that it starts is agreed.
abbrev Fair : Result → Action → Users → ℕ → Option (Result × List Notice) → Type 0
Fair s action users now none = Unit {0}
Fair s action users now (some (s', ns)) =
    s'.status ≡ starting → is_starting s.status ≡ false → IsAgreed s action users now s'

consented :
    (users : Users) (s : Result) (t : Status)
    → t ≡ starting
    → valid_phase users s t ≡ true
    → all_of (λ p. users.is_bot p.user_id || p.viewing && p.requested) s.players ≡ true
unfolding valid_phase
consented users s opened e h = absurd (ground (arith, e))
consented users s starting e h = ground (arith, h)
consented users s rematched e h = absurd (ground (arith, e))
consented users s closed e h = absurd (ground (arith, e))

normalized-Fair :
    (s : Result) (action : Action) (run : Run) (users : Users) (now : ℕ) (ns : List Notice)
    (o : Option Result)
    → Starts s action now o
    → Fair s action users now (with_notices ns (normalized o run users))
unfolding normalize_result_state
normalized-Fair s action run users now ns none k = tt
normalized-Fair s action run users now ns (some s') k =
    if_ind (λ z. Fair s action users now (with_notices ns z)) (is_valid s' run users)
      (λ v a n.
        let (was, in_time, (asker, by)) = k a n in
        record {
          was_open = was;
          in_time = in_time;
          asker = asker;
          by_request = by;
          consent = consented users s' s'.status a (is_valid-IsValid s' run users v).phased;
        })
      (λ _. tt)

-- When an action of a result that starts no rematch makes it start one, the result was open, its
-- deadline had not come, the action was a request, and each player is a bot or views the result and has
-- asked for the rematch.
pub transition_result-IsAgreed :
    (s s' : Result) (action : Action) (run : Run) (users : Users) (now : ℕ) (key : List ℕ)
    (ns : List Notice)
    → transition_result s action run users now key ≡ some (s', ns)
    → s'.status ≡ starting
    → is_starting s.status ≡ false
    → IsAgreed s action users now s'
unfolding transition_result
transition_result-IsAgreed s s' action run users now key ns e = subst (Fair s action users now) e (
    if_ind (Fair s action users now) (not (valid_id now) || is_closed s.status) (λ _. tt)
      (λ _.
        normalized-Fair s action run users now (notices_of s action run now)
          (act s action run users now key) (act-Starts s action run users now key)))
