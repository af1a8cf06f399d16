-- ===== src/Economy/StaysPaid.antt =====
-- A payout that was paid stays paid, whatever bounties, milestones and claims follow.
use purecheckers.Base.{
  ℕ, leb, ◌==◌, ◌≡◌, refl, ap, sym, subst, ◌∙◌, if_ind, Bool, true, false, not, Option, none, some,
  List, [], ◌∷◌, ◌++◌,
}
use purecheckers.Base.Int.{ℤ, leb_ℤ}
use purecheckers.Economy.{
  User, PendingPayout, Books, Bounty, coin_amount, find_user, change_user, award_to, award_coins,
  withdraw_from_vault, pay_or_queue, bounty_of, bounty_for, won_today, daily_bounty_amount,
  award_daily_bounty,
}
use purecheckers.Economy.Milestones.{
  Milestone, Awarded, go_on_with, is_new, award_milestones, raise_peak, milestones_for,
  elo_milestones, check_milestones,
}
use purecheckers.Economy.Pending.{
  ClaimOutcome, find_payout, finish_claim_of, claim_from, claim_of, claim_pending_payout,
}
use purecheckers.Economy.Runs.{VaultRun, starts, bounty, milestones, claim}
use purecheckers.Economy.Paid.{Paid, Paid-append, Paid-mark_claimed}

pending_or : List PendingPayout → Option Books → List PendingPayout
pending_or d none = d
pending_or d (some b) = b.pending

award_to-pending :
    (id amount : ℕ) (b : Books) (o : Option User)
    → pending_or b.pending (award_to id amount b o) ≡ b.pending
unfolding pending_or
award_to-pending id amount b none = refl
award_to-pending id amount b (some u) = refl

pub award_coins-pending :
    (id amount : ℕ) (b c : Books) → award_coins id amount b ≡ some c → c.pending ≡ b.pending
unfolding award_coins pending_or
award_coins-pending id amount b c e =
    ap (pending_or b.pending) (sym e)
    ∙ if_ind (λ z. pending_or b.pending z ≡ b.pending) (coin_amount amount)
        (λ _. award_to-pending id amount b (find_user id b.users)) (λ _. refl)

pub withdraw-pending :
    (amount : ℕ) (b : Books) → (withdraw_from_vault amount b).1.pending ≡ b.pending
unfolding withdraw_from_vault
withdraw-pending amount b =
    if_ind {A = Bool × Books} (λ z. z.1.pending ≡ b.pending) (leb amount _) (λ _. refl) (λ _. refl)

module _ (payout id n : ℕ) where
  -- Whatever the outcome, the payout stays paid; an error changes nothing.
  abbrev StillPaid : {A : Type 0} → Option (A × Books) → Type 0
  StillPaid none = true ≡ true
  StillPaid (some (a, b)) = Paid payout id n b.pending

  taken-StillPaid :
      (b : Books) (o : Option Books)
      → Paid payout id n b.pending
      → ((c : Books) → o ≡ some c → c.pending ≡ b.pending)
      → StillPaid {A = Bool} (elim o [ none ↦ none | some c ↦ some (true, c) ])
  taken-StillPaid b none k same = refl
  taken-StillPaid b (some c) k same = subst (λ z. Paid payout id n z) (sym (same c refl)) k

  pay_or_queue-StillPaid :
      (user amount : ℕ) (r : Bool × Books)
      → Paid payout id n r.1.pending
      → StillPaid {A = Bool} (pay_or_queue user amount r)
  pay_or_queue-StillPaid user amount (true, b) k =
      taken-StillPaid b (award_coins user amount b) k (λ c e. award_coins-pending user amount b c e)
  pay_or_queue-StillPaid user amount (false, b) k = Paid-append payout id n b.pending _ k

  withdraw-Paid :
      (amount : ℕ) (b : Books)
      → Paid payout id n b.pending
      → Paid payout id n (withdraw_from_vault amount b).1.pending
  withdraw-Paid amount b k = subst (λ z. Paid payout id n z) (sym (withdraw-pending amount b)) k

  bounty_of-StillPaid : (o : Option (Bool × Books)) → StillPaid o → StillPaid (bounty_of o)
  bounty_of-StillPaid none k = refl
  bounty_of-StillPaid (some (true, b)) k = k
  bounty_of-StillPaid (some (false, b)) k = k

  bounty_for-StillPaid :
      (user now : ℕ) (b : Books) (o : Option User)
      → Paid payout id n b.pending
      → StillPaid (bounty_for user now b o)
  bounty_for-StillPaid user now b none k = k
  bounty_for-StillPaid user now b (some u) k =
      let dated = record b {
        users = change_user user (λ x. record x { last_daily_win = some now }) b.users;
      } in
      if_ind {A = Option (Bounty × Books)} (λ z. StillPaid z) (won_today u.last_daily_win now)
        (λ _. k)
        (λ _.
          bounty_of-StillPaid
            (pay_or_queue user daily_bounty_amount (withdraw_from_vault daily_bounty_amount dated))
            (pay_or_queue-StillPaid user daily_bounty_amount
              (withdraw_from_vault daily_bounty_amount dated)
              (withdraw-Paid daily_bounty_amount dated k)))

  go_on_with-StillPaid :
      (m : Milestone) (awarded : List (Milestone × Bool))
      (go : List (Milestone × Bool) → Books → Option Awarded) (o : Option (Bool × Books))
      → ((a : List (Milestone × Bool)) (c : Books)
          → Paid payout id n c.pending
          → StillPaid (go a c))
      → StillPaid o
      → StillPaid (go_on_with m awarded go o)
  go_on_with-StillPaid m awarded go none keeps k = refl
  go_on_with-StillPaid m awarded go (some (was_paid, b)) keeps k =
      keeps (awarded ++ (m, was_paid) ∷ []) b k

  award_milestones-StillPaid :
      (user : ℕ) (new_elo peak : ℤ) (ms : List Milestone) (awarded : List (Milestone × Bool))
      (b : Books)
      → Paid payout id n b.pending
      → StillPaid (award_milestones user new_elo peak ms awarded b)
  unfolding award_milestones
  award_milestones-StillPaid user new_elo peak [] awarded b k = k
  award_milestones-StillPaid user new_elo peak (m ∷ ms) awarded b k =
      if_ind {A = Option Awarded} (λ z. StillPaid z) (is_new new_elo peak m)
        (λ _.
          go_on_with-StillPaid m awarded (λ a c. award_milestones user new_elo peak ms a c)
            (pay_or_queue user m.reward (withdraw_from_vault m.reward b))
            (λ a c q. award_milestones-StillPaid user new_elo peak ms a c q)
            (pay_or_queue-StillPaid user m.reward (withdraw_from_vault m.reward b)
              (withdraw-Paid m.reward b k)))
        (λ _. award_milestones-StillPaid user new_elo peak ms awarded b k)

  raise_peak-StillPaid :
      (user : ℕ) (new_elo peak : ℤ) (o : Option Awarded)
      → StillPaid o
      → StillPaid (raise_peak user new_elo peak o)
  raise_peak-StillPaid user new_elo peak none k = refl
  raise_peak-StillPaid user new_elo peak (some (awarded, b)) k =
      if_ind {A = Books} (λ z. Paid payout id n z.pending) (not (leb_ℤ new_elo peak)) (λ _. k)
        (λ _. k)

  milestones_for-StillPaid :
      (user : ℕ) (new_elo : ℤ) (b : Books) (o : Option User)
      → Paid payout id n b.pending
      → StillPaid (milestones_for user new_elo b o)
  milestones_for-StillPaid user new_elo b none k = k
  milestones_for-StillPaid user new_elo b (some u) k =
      raise_peak-StillPaid user new_elo u.peak_elo
        (award_milestones user new_elo u.peak_elo elo_milestones [] b)
        (award_milestones-StillPaid user new_elo u.peak_elo elo_milestones [] b k)

  finish_claim_of-StillPaid :
      (other amount : ℕ) (b : Books) (o : Option Books)
      → Paid payout id n b.pending
      → ((c : Books) → o ≡ some c → c.pending ≡ b.pending)
      → StillPaid (finish_claim_of other amount o)
  finish_claim_of-StillPaid other amount b none k same = refl
  finish_claim_of-StillPaid other amount b (some c) k same =
      Paid-mark_claimed payout id n other c.pending
        (subst (λ z. Paid payout id n z) (sym (same c refl)) k)

  claim_from-StillPaid :
      (other user amount : ℕ) (r : Bool × Books)
      → Paid payout id n r.1.pending
      → StillPaid (claim_from other user amount r)
  claim_from-StillPaid other user amount (true, b) k =
      finish_claim_of-StillPaid other amount b (award_coins user amount b) k
        (λ c e. award_coins-pending user amount b c e)
  claim_from-StillPaid other user amount (false, b) k = k

  claim_of-StillPaid :
      (other user : ℕ) (b : Books) (o : Option PendingPayout)
      → Paid payout id n b.pending
      → StillPaid (claim_of other user b o)
  claim_of-StillPaid other user b none k = k
  claim_of-StillPaid other user b (some p) k =
      if_ind {A = Option (ClaimOutcome × Books)} (λ z. StillPaid z) (not (p.user_id == user))
        (λ _. k)
        (λ _.
          if_ind {A = Option (ClaimOutcome × Books)} (λ z. StillPaid z) p.claimed (λ _. k)
            (λ _.
              if_ind {A = Option (ClaimOutcome × Books)} (λ z. StillPaid z) (coin_amount p.amount)
                (λ _.
                  claim_from-StillPaid other user p.amount (withdraw_from_vault p.amount b)
                    (withdraw-Paid p.amount b k))
                (λ _. refl)))

  pub VaultRun-Paid :
      {b c : Books} → VaultRun b c → Paid payout id n b.pending → Paid payout id n c.pending
  unfolding award_daily_bounty check_milestones claim_pending_payout
  VaultRun-Paid starts k = k
  VaultRun-Paid (bounty {c = c} user now outcome r e) k =
      subst (λ z. StillPaid z) e
        (bounty_for-StillPaid user now c (find_user user c.users) (VaultRun-Paid r k))
  VaultRun-Paid (milestones {c = c} user new_elo awarded r e) k =
      subst (λ z. StillPaid z) e
        (milestones_for-StillPaid user new_elo c (find_user user c.users) (VaultRun-Paid r k))
  VaultRun-Paid (claim {c = c} other user outcome r e) k =
      subst (λ z. StillPaid z) e
        (claim_of-StillPaid other user c (find_payout other c.pending) (VaultRun-Paid r k))
