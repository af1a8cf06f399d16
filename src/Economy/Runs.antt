-- ===== src/Economy/Runs.antt =====
-- The bounties, milestones and claims, one after another.
use purecheckers.Base.{
  ℕ, ◌==◌, ◌≡◌, refl, subst, if_ind, Bool, true, false, not, Option, none, some, List, [], ◌∷◌,
  ◌++◌,
}
use purecheckers.Base.Int.{ℤ, leb_ℤ}
use purecheckers.Economy.{
  User, PendingPayout, Books, Bounty, coin_amount, find_user, change_user, award_coins,
  withdraw_from_vault, pay_or_queue, bounty_of, bounty_for, won_today, daily_bounty_amount,
  award_daily_bounty,
}
use purecheckers.Economy.Milestones.{
  Milestone, Awarded, go_on_with, is_new, award_milestones, raise_peak, milestones_for,
  elo_milestones, check_milestones,
}
use purecheckers.Economy.Pending.{
  ClaimOutcome, find_payout, finish_claim_of, claim_from, claim_of, claim_pending_payout,
}
use purecheckers.Economy.Conserved.{
  IsSound, IsTaken, Keeps, KeepsBooks, withdraw_from_vault-IsTaken, award_coins-Keeps,
  vault_pays-Keeps, IsSound-change_user,
}

bounty_of-Keeps : (n : ℕ) (o : Option (Bool × Books)) → Keeps n o → Keeps n (bounty_of o)
bounty_of-Keeps n none k = refl
bounty_of-Keeps n (some (true, b)) k = k
bounty_of-Keeps n (some (false, b)) k = k

bounty_for-Keeps :
    (n id now : ℕ) (b : Books) (o : Option User) → IsSound n b → Keeps n (bounty_for id now b o)
bounty_for-Keeps n id now b none s = s
bounty_for-Keeps n id now b (some u) s =
    let dated = record b {
      users = change_user id (λ x. record x { last_daily_win = some now }) b.users;
    } in
    if_ind {A = Option (Bounty × Books)} (λ z. Keeps n z) (won_today u.last_daily_win now) (λ _. s)
      (λ _.
        bounty_of-Keeps n
          (pay_or_queue id daily_bounty_amount (withdraw_from_vault daily_bounty_amount dated))
          (vault_pays-Keeps n id daily_bounty_amount dated (
            IsSound-change_user n id (λ x. record x { last_daily_win = some now }) b (λ x. refl)
              s)))

award_daily_bounty-Keeps :
    (n id now : ℕ) (b : Books) → IsSound n b → Keeps n (award_daily_bounty id now b)
unfolding award_daily_bounty
award_daily_bounty-Keeps n id now b s = bounty_for-Keeps n id now b (find_user id b.users) s

go_on_with-Keeps :
    (n : ℕ) (m : Milestone) (awarded : List (Milestone × Bool))
    (go : List (Milestone × Bool) → Books → Option Awarded) (o : Option (Bool × Books))
    → ((a : List (Milestone × Bool)) (c : Books) → IsSound n c → Keeps n (go a c))
    → Keeps n o
    → Keeps n (go_on_with m awarded go o)
go_on_with-Keeps n m awarded go none keeps k = refl
go_on_with-Keeps n m awarded go (some (was_paid, b)) keeps k =
    keeps (awarded ++ (m, was_paid) ∷ []) b k

award_milestones-Keeps :
    (n id : ℕ) (new_elo peak : ℤ) (ms : List Milestone) (awarded : List (Milestone × Bool))
    (b : Books)
    → IsSound n b
    → Keeps n (award_milestones id new_elo peak ms awarded b)
unfolding award_milestones
award_milestones-Keeps n id new_elo peak [] awarded b s = s
award_milestones-Keeps n id new_elo peak (m ∷ ms) awarded b s =
    if_ind {A = Option Awarded} (λ z. Keeps n z) (is_new new_elo peak m)
      (λ _.
        go_on_with-Keeps n m awarded (λ a c. award_milestones id new_elo peak ms a c)
          (pay_or_queue id m.reward (withdraw_from_vault m.reward b))
          (λ a c k. award_milestones-Keeps n id new_elo peak ms a c k)
          (vault_pays-Keeps n id m.reward b s))
      (λ _. award_milestones-Keeps n id new_elo peak ms awarded b s)

raise_peak-Keeps :
    (n id : ℕ) (new_elo peak : ℤ) (o : Option Awarded)
    → Keeps n o
    → Keeps n (raise_peak id new_elo peak o)
raise_peak-Keeps n id new_elo peak none k = refl
raise_peak-Keeps n id new_elo peak (some (awarded, b)) k =
    if_ind (λ z. IsSound n z) (not (leb_ℤ new_elo peak))
      (λ _. IsSound-change_user n id (λ x. record x { peak_elo = new_elo }) b (λ x. refl) k)
      (λ _. k)

milestones_for-Keeps :
    (n id : ℕ) (new_elo : ℤ) (b : Books) (o : Option User)
    → IsSound n b
    → Keeps n (milestones_for id new_elo b o)
milestones_for-Keeps n id new_elo b none s = s
milestones_for-Keeps n id new_elo b (some u) s =
    raise_peak-Keeps n id new_elo u.peak_elo
      (award_milestones id new_elo u.peak_elo elo_milestones [] b)
      (award_milestones-Keeps n id new_elo u.peak_elo elo_milestones [] b s)

check_milestones-Keeps :
    (n id : ℕ) (new_elo : ℤ) (b : Books) → IsSound n b → Keeps n (check_milestones id new_elo b)
unfolding check_milestones
check_milestones-Keeps n id new_elo b s =
    milestones_for-Keeps n id new_elo b (find_user id b.users) s

finish_claim_of-Keeps :
    (n payout amount : ℕ) (o : Option Books)
    → KeepsBooks n o
    → Keeps n (finish_claim_of payout amount o)
finish_claim_of-Keeps n payout amount none k = refl
finish_claim_of-Keeps n payout amount (some b) k = record {
  all_coins = k.all_coins;
  audited = k.audited;
}

claim_from-Keeps :
    (n payout id amount : ℕ) (r : Bool × Books)
    → IsTaken n amount r
    → Keeps n (claim_from payout id amount r)
claim_from-Keeps n payout id amount (true, b) t =
    finish_claim_of-Keeps n payout amount (award_coins id amount b)
      (award_coins-Keeps n id amount b t)
claim_from-Keeps n payout id amount (false, b) s = s

claim_of-Keeps :
    (n payout id : ℕ) (b : Books) (o : Option PendingPayout)
    → IsSound n b
    → Keeps n (claim_of payout id b o)
claim_of-Keeps n payout id b none s = s
claim_of-Keeps n payout id b (some p) s =
    if_ind {A = Option (ClaimOutcome × Books)} (λ z. Keeps n z) (not (p.user_id == id)) (λ _. s)
      (λ _.
        if_ind {A = Option (ClaimOutcome × Books)} (λ z. Keeps n z) p.claimed (λ _. s)
          (λ _.
            if_ind {A = Option (ClaimOutcome × Books)} (λ z. Keeps n z) (coin_amount p.amount)
              (λ _.
                claim_from-Keeps n payout id p.amount (withdraw_from_vault p.amount b)
                  (withdraw_from_vault-IsTaken n p.amount b s))
              (λ _. refl)))

claim_pending_payout-Keeps :
    (n payout id : ℕ) (b : Books) → IsSound n b → Keeps n (claim_pending_payout payout id b)
unfolding claim_pending_payout
claim_pending_payout-Keeps n payout id b s =
    claim_of-Keeps n payout id b (find_payout payout b.pending) s

-- Daily bounties, milestones and claims that are taken one after another.
pub data VaultRun : Books → Books → Type 0 where
  starts : {b : Books} → VaultRun b b
  bounty :
      {b c d : Books} (id now : ℕ) (outcome : Bounty)
      → VaultRun b c
      → award_daily_bounty id now c ≡ some (outcome, d)
      → VaultRun b d
  milestones :
      {b c d : Books} (id : ℕ) (new_elo : ℤ) (awarded : List (Milestone × Bool))
      → VaultRun b c
      → check_milestones id new_elo c ≡ some (awarded, d)
      → VaultRun b d
  claim :
      {b c d : Books} (payout id : ℕ) (outcome : ClaimOutcome)
      → VaultRun b c
      → claim_pending_payout payout id c ≡ some (outcome, d)
      → VaultRun b d

after_run :
    {A : Type 0} (n : ℕ) (o : Option (A × Books)) (a : A) (b : Books)
    → Keeps n o
    → o ≡ some (a, b)
    → IsSound n b
after_run n o a b k e = subst (λ z. Keeps n z) e k

-- In whatever order bounties, milestones and claims are taken, and however many, the coins of all users and
-- the vault stay the same in all, and the vault has what its log says that was paid in and not paid out.
pub VaultRun-IsSound : {b c : Books} (n : ℕ) → IsSound n b → VaultRun b c → IsSound n c
VaultRun-IsSound n s starts = s
VaultRun-IsSound n s (bounty {c = c} {d = d} id now outcome r e) =
    after_run n (award_daily_bounty id now c) outcome d
      (award_daily_bounty-Keeps n id now c (VaultRun-IsSound n s r)) e
VaultRun-IsSound n s (milestones {c = c} {d = d} id new_elo awarded r e) =
    after_run n (check_milestones id new_elo c) awarded d
      (check_milestones-Keeps n id new_elo c (VaultRun-IsSound n s r)) e
VaultRun-IsSound n s (claim {c = c} {d = d} payout id outcome r e) =
    after_run n (claim_pending_payout payout id c) outcome d
      (claim_pending_payout-Keeps n payout id c (VaultRun-IsSound n s r)) e
