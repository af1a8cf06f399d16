-- ===== src/Tests/Bank.antt =====
-- The theorems on coins and the vault at small books.
use purecheckers.Base.{ℕ, ◌≡◌, refl, true, false, Option, some, none, [], ◌∷◌}
use purecheckers.Base.Int.{pos}
use purecheckers.Economy.{
  User, Books, Bounty, paid, coin_amount, find_user, change_user, award_coins, withdraw_from_vault,
  calculate_ranked_payout, award_daily_bounty,
}
use purecheckers.Economy.Pending.{
  ClaimOutcome, success, find_payout, mark_claimed, claim_pending_payout,
}
use purecheckers.Economy.Payout.{IsSplit, calculate_ranked_payout-IsSplit}
use purecheckers.Economy.Conserved.{IsSound}
use purecheckers.Economy.Runs.{starts, bounty, claim, VaultRun-IsSound}
use purecheckers.Economy.Claims.{claim_pending_payout_again}

stakes_of_50 : coin_amount 50 ≡ true
unfolding coin_amount
stakes_of_50 = refl

calculate_ranked_payout-IsSplit_example :
    (split : ℕ × ℕ) × (calculate_ranked_payout 50 ≡ some split) × IsSplit 50 split
calculate_ranked_payout-IsSplit_example = calculate_ranked_payout-IsSplit 50 stakes_of_50

abbrev player : User
player = record { id = 1; coins = 5; last_daily_win = none; peak_elo = pos 1000 }

abbrev small_books : Books
small_books = record {
  users = player ∷ [];
  coin_log = [];
  vault = some 12;
  vault_log = record { amount = 12; is_in = true } ∷ [];
  pending =
      record { id = 0; user_id = 1; amount = 4; claimed = false }
      ∷ record { id = 1; user_id = 1; amount = 3; claimed = false }
      ∷ [];
  next_payout = 2;
}

abbrev bounty_books : Option (Bounty × Books) → Books
bounty_books none = small_books
bounty_books (some (outcome, b)) = b

unfoldable after_bounty : Books
after_bounty = bounty_books (award_daily_bounty 1 100000000 small_books)

bounty_paid : award_daily_bounty 1 100000000 small_books ≡ some (paid, after_bounty)
unfolding after_bounty award_daily_bounty find_user change_user withdraw_from_vault award_coins
    coin_amount
bounty_paid = refl

abbrev claim_books : Option (ClaimOutcome × Books) → Books
claim_books none = small_books
claim_books (some (outcome, b)) = b

unfoldable after_claim : Books
after_claim = claim_books (claim_pending_payout 0 1 after_bounty)

claim_paid : claim_pending_payout 0 1 after_bounty ≡ some (success 4, after_claim)
unfolding after_bounty after_claim award_daily_bounty claim_pending_payout find_user change_user
    withdraw_from_vault award_coins coin_amount find_payout mark_claimed
claim_paid = refl

small_books-IsSound : IsSound 17 small_books
small_books-IsSound = record { all_coins = refl; audited = refl }

VaultRun-IsSound_example : IsSound 17 after_claim
VaultRun-IsSound_example =
    VaultRun-IsSound 17 small_books-IsSound
      (claim 0 1 (success 4) (bounty 1 100000000 paid starts bounty_paid) claim_paid)

unfoldable after_second : Books
after_second = claim_books (claim_pending_payout 1 1 after_claim)

second_paid : claim_pending_payout 1 1 after_claim ≡ some (success 3, after_second)
unfolding after_bounty after_claim after_second award_daily_bounty claim_pending_payout find_user
    change_user withdraw_from_vault award_coins coin_amount find_payout mark_claimed
second_paid = refl

claim_pending_payout_again_example :
    claim_pending_payout 0 1 after_second ≡ some (success 4, after_second)
claim_pending_payout_again_example =
    claim_pending_payout_again 0 1 4 after_bounty after_claim after_second claim_paid
      (claim 1 1 (success 3) starts second_paid)
