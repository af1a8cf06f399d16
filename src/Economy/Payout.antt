-- ===== src/Economy/Payout.antt =====
-- The pot of a wager and what is taken of it.
use purecheckers.Base.{
  ℕ, ◌+◌, ◌-◌, ◌*◌, ◌≤◌, max, ◌==◌, ◌≡◌, refl, ◌⊎◌, inl, if_ind, true, if◌then◌else◌, some, arith,
}
use purecheckers.Economy.{coin_amount, half_up, calculate_ranked_payout}

-- The winner's pot and the tax for a wager.
pub record IsSplit (buy_in : ℕ) (split : ℕ × ℕ) : Type 0 where
  pub whole : split.0 + split.1 ≡ buy_in * 2
  pub taxed : 1 ≤ buy_in → 1 ≤ split.1
  pub least : buy_in * 2 ≤ 20 * split.1 + 10
  pub most : (split.1 ≤ 1) ⊎ (20 * split.1 ≤ buy_in * 2 + 10)

tax_of : ℕ → ℕ
tax_of pot = if pot == 0 then 0 else max 1 (half_up (pot * 5) 100)

tax_least : (pot : ℕ) → pot ≤ 20 * tax_of pot + 10
unfolding tax_of
tax_least pot = if_ind (λ z. pot ≤ 20 * z + 10) (pot == 0) (λ t. ground arith) (λ f. omega arith)

tax_le : (pot : ℕ) → tax_of pot ≤ pot
unfolding tax_of
tax_le pot = if_ind (λ z. z ≤ pot) (pot == 0) (λ t. ground arith) (λ f. ground arith)

tax_positive : (pot : ℕ) → 1 ≤ pot → 1 ≤ tax_of pot
unfolding tax_of
tax_positive pot h = if_ind (λ z. 1 ≤ z) (pot == 0) (λ t. absurd (ground arith)) (λ f. omega arith)

tax_most : (pot : ℕ) → (tax_of pot ≤ 1) ⊎ (20 * tax_of pot ≤ pot + 10)
unfolding tax_of
tax_most pot =
    if_ind (λ z. (z ≤ 1) ⊎ (20 * z ≤ pot + 10)) (pot == 0) (λ t. inl (omega arith))
      (λ f. ground arith)

-- For each wager that is an amount of coins, the winner's pot and the tax make up both stakes, a wager is
-- taxed with one coin at least, and the tax is 5 in 100 to the nearest coin where that is more than one.
pub calculate_ranked_payout-IsSplit :
    (buy_in : ℕ)
    → coin_amount buy_in ≡ true
    → (split : ℕ × ℕ) × (calculate_ranked_payout buy_in ≡ some split) × IsSplit buy_in split
unfolding calculate_ranked_payout tax_of
calculate_ranked_payout-IsSplit buy_in h =
    let pot = buy_in * 2 in
    (
      (pot - tax_of pot, tax_of pot),
      rw h refl,
      record {
        whole = omega (arith, tax_le pot);
        taxed = λ l. tax_positive pot (omega arith);
        least = tax_least pot;
        most = tax_most pot;
      },
    )
