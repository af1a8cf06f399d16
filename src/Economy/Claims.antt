-- ===== src/Economy/Claims.antt =====
-- A payout is paid once.
use purecheckers.Base.{
  ℕ, ◌==◌, ◌≡◌, refl, ap, sym, subst, ◌∙◌, inl, inr, if_ind, Bool, true, false, not, if◌then◌else◌,
  Option, Option-cases, none, some,
}
use purecheckers.Economy.{PendingPayout, Books, coin_amount, award_coins, withdraw_from_vault}
use purecheckers.Economy.Pending.{
  ClaimOutcome, not_found, insufficient, success, find_payout, finish_claim_of, claim_from,
  claim_of, claim_pending_payout,
}
use purecheckers.Economy.Runs.{VaultRun}
use purecheckers.Economy.Paid.{find_payout-mark_claimed, Paid}
use purecheckers.Economy.StaysPaid.{award_coins-pending, withdraw-pending, VaultRun-Paid}

-- What follows of the outcome of a claim by the user of a payout: a success leaves the payout paid.
abbrev Settled : ℕ → ℕ → Option (ClaimOutcome × Books) → Type 0
Settled payout id none = true ≡ true
Settled payout id (some (not_found, c)) = true ≡ true
Settled payout id (some (insufficient, c)) = true ≡ true
Settled payout id (some (success n, c)) = Paid payout id n c.pending

module _ (payout id : ℕ) (p : PendingPayout) (own : not (p.user_id == id) ≡ false) where
  finish_claim_of-Settled :
      (b : Books) (o : Option Books)
      → find_payout payout b.pending ≡ some p
      → ((c : Books) → o ≡ some c → c.pending ≡ b.pending)
      → Settled payout id (finish_claim_of payout p.amount o)
  finish_claim_of-Settled b none e same = refl
  finish_claim_of-Settled b (some c) e same = record {
    entry = record p { claimed = true };
    found = find_payout-mark_claimed payout c.pending p (ap (find_payout payout) (same c refl) ∙ e);
    claimed = refl;
    amount = refl;
    own = own;
  }

  claim_from-Settled :
      (r : Bool × Books)
      → find_payout payout r.1.pending ≡ some p
      → Settled payout id (claim_from payout id p.amount r)
  claim_from-Settled (true, b) e =
      finish_claim_of-Settled b (award_coins id p.amount b) e
        (λ c k. award_coins-pending id p.amount b c k)
  claim_from-Settled (false, b) e = refl

claim_of-Settled :
    (payout id : ℕ) (b : Books) (p : PendingPayout)
    → find_payout payout b.pending ≡ some p
    → Settled payout id (claim_of payout id b (some p))
claim_of-Settled payout id b p e =
    if_ind {A = Option (ClaimOutcome × Books)} (λ z. Settled payout id z) (not (p.user_id == id))
      (λ _. refl)
      (λ own.
        if_ind {A = Option (ClaimOutcome × Books)} (λ z. Settled payout id z) p.claimed
          (λ t. record { entry = p; found = e; claimed = t; amount = refl; own = own })
          (λ _.
            if_ind {A = Option (ClaimOutcome × Books)} (λ z. Settled payout id z)
              (coin_amount p.amount)
              (λ _.
                claim_from-Settled payout id p own (withdraw_from_vault p.amount b)
                  (ap (find_payout payout) (withdraw-pending p.amount b) ∙ e))
              (λ _. refl)))

claimed-Paid :
    (payout id n : ℕ) (b c : Books)
    → claim_pending_payout payout id b ≡ some (success n, c)
    → Paid payout id n c.pending
unfolding claim_pending_payout
claimed-Paid payout id n b c e =
    subst (λ z. Settled payout id z) e
      (elim (Option-cases (find_payout payout b.pending)) [
        | inl f ↦ subst (λ z. Settled payout id (claim_of payout id b z)) (sym f) refl
        | inr (p, f) ↦
            subst (λ z. Settled payout id (claim_of payout id b z)) (sym f)
              (claim_of-Settled payout id b p f)
      ])

-- The claim of a paid payout answers with its amount and changes nothing.
Paid-claim :
    (payout id n : ℕ) (d : Books)
    → Paid payout id n d.pending
    → claim_pending_payout payout id d ≡ some (success n, d)
unfolding claim_pending_payout
Paid-claim payout id n d k =
    let q = k.entry in
    let pay = claim_from payout id q.amount (withdraw_from_vault q.amount d) in
    let unpaid = if coin_amount q.amount then pay else none in
    ap (claim_of payout id d) k.found
    ∙ ap
        (λ z.
          if z
          then some (not_found, d)
          else if q.claimed
          then some (success q.amount, d)
          else unpaid)
        k.own
    ∙ ap (λ z. if z then some (success q.amount, d) else unpaid) k.claimed
    ∙ ap (λ z. some (success z, d)) k.amount

-- After a claim that succeeds, and whatever bounties, milestones and claims of any payouts come after it, the
-- same claim answers with the same amount and changes nothing: no payout is paid twice.
pub claim_pending_payout_again :
    (payout id n : ℕ) (b c d : Books)
    → claim_pending_payout payout id b ≡ some (success n, c)
    → VaultRun c d
    → claim_pending_payout payout id d ≡ some (success n, d)
claim_pending_payout_again payout id n b c d e r =
    Paid-claim payout id n d (VaultRun-Paid payout id n r (claimed-Paid payout id n b c e))
