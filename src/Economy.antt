-- ===== src/Economy.antt =====
-- Coins and the vault: server/services/coins.js and server/services/vault.js. The tables are lists, and a
-- function that runs in a transaction takes and returns all of them; an error is `none`, which keeps the
-- tables as they were. The texts and times of the logs are left out.
pub mod Payout
pub mod Milestones
pub mod Pending
pub mod Conserved
pub mod Runs
pub mod Paid
pub mod StaysPaid
pub mod Claims
use package.purecheckers.Base.{
  ℕ, zero, suc, ◌+◌, ◌-◌, ◌*◌, ◌/◌, ◌%◌, max, leb, ltb, ◌==◌, Bool, true, false, not, ◌&&◌, ◌||◌,
  if◌then◌else◌, Option, none, some, List, [], ◌∷◌, ◌++◌,
}
use package.purecheckers.Base.Int.{ℤ, pos, leb_ℤ}

pub record User : Type 0 where
  pub id : ℕ
  pub coins : ℕ
  pub last_daily_win : Option ℕ
  pub peak_elo : ℤ

-- A coin transaction, whose amount is negative when it is no gain.
pub record CoinEntry : Type 0 where
  pub receiver : ℕ
  pub gain : Bool
  pub amount : ℕ

pub record VaultEntry : Type 0 where
  pub amount : ℕ
  pub is_in : Bool

pub record PendingPayout : Type 0 where
  pub id : ℕ
  pub user_id : ℕ
  pub amount : ℕ
  pub claimed : Bool

-- `vault` is the balance of the one row, `none` before there is one.
pub record Books : Type 0 where
  pub users : List User
  pub coin_log : List CoinEntry
  pub vault : Option ℕ
  pub vault_log : List VaultEntry
  pub pending : List PendingPayout
  pub next_payout : ℕ

-- `assertCoinAmount` does not throw.
unfoldable pub coin_amount : ℕ → Bool
coin_amount amount = leb amount 2147483647

unfoldable pub find_user : ℕ → List User → Option User
find_user id [] = none
find_user id (u ∷ us) = if u.id == id then some u else find_user id us

unfoldable pub change_user : ℕ → (User → User) → List User → List User
change_user id f [] = []
change_user id f (u ∷ us) = if u.id == id then f u ∷ us else u ∷ change_user id f us

abbrev pub log_coins : ℕ → Bool → ℕ → List CoinEntry → List CoinEntry
log_coins id gain amount log =
    if ltb 0 amount then log ++ record { receiver = id; gain = gain; amount = amount } ∷ [] else log

abbrev pub award_to : ℕ → ℕ → Books → Option User → Option Books
award_to id amount b none = none
award_to id amount b (some u) = some (record b {
  users = change_user id (λ x. record x { coins = x.coins + amount }) b.users;
  coin_log = log_coins id true amount b.coin_log;
})

unfoldable pub award_coins : ℕ → ℕ → Books → Option Books
award_coins id amount b =
    if coin_amount amount then award_to id amount b (find_user id b.users) else none

abbrev pub deduct_from : ℕ → ℕ → Books → Option User → Option Books
deduct_from id amount b none = none
deduct_from id amount b (some u) =
    if leb amount u.coins
    then some (record b {
      users = change_user id (λ x. record x { coins = x.coins - amount }) b.users;
      coin_log = log_coins id false amount b.coin_log;
    })
    else none

unfoldable pub deduct_coins : ℕ → ℕ → Books → Option Books
deduct_coins id amount b =
    if coin_amount amount then deduct_from id amount b (find_user id b.users) else none

-- `getVaultBalance`.
abbrev pub balance_of : Option ℕ → ℕ
balance_of none = 0
balance_of (some n) = n

unfoldable pub deposit_to_vault : ℕ → Books → Option Books
deposit_to_vault amount b =
    if not (coin_amount amount)
    then none
    else if amount == 0
    then some b
    else some (record b {
      vault = some (balance_of b.vault + amount);
      vault_log = record { amount = amount; is_in = true } ∷ b.vault_log;
    })

-- `withdrawFromVault` of an amount that is no invalid one: was it paid?
unfoldable pub withdraw_from_vault : ℕ → Books → Bool × Books
withdraw_from_vault amount b =
    if leb amount (balance_of b.vault)
    then (
      true,
      record b {
        vault = some (balance_of b.vault - amount);
        vault_log = record { amount = amount; is_in = false } ∷ b.vault_log;
      },
    )
    else (false, record b { vault = some (balance_of b.vault) })

abbrev pub half_up : ℕ → ℕ → ℕ
half_up a b = (2 * a + b) / (2 * b)

-- `calculateRankedPayout`, with a rate of 5/100: the winner's pot and the tax.
unfoldable pub calculate_ranked_payout : ℕ → Option (ℕ × ℕ)
calculate_ranked_payout buy_in =
    let pot = buy_in * 2 in
    let tax = if pot == 0 then 0 else max 1 (half_up (pot * 5) 100) in
    if coin_amount buy_in then some (pot - tax, tax) else none

-- `calculateShopSplit`, with a rate of 30/100: what is burned and what goes to the vault.
unfoldable pub calculate_shop_split : ℕ → Option (ℕ × ℕ)
calculate_shop_split price =
    let to_vault = if price == 0 then 0 else max 1 (half_up (price * 30) 100) in
    if coin_amount price then some (price - to_vault, to_vault) else none

-- The start of the day of a time in milliseconds.
abbrev pub utc_day_start : ℕ → ℕ
utc_day_start now = now - now % 86400000

abbrev pub daily_bounty_amount : ℕ
daily_bounty_amount = 2

abbrev pub won_today : Option ℕ → ℕ → Bool
won_today none now = false
won_today (some last) now = leb (utc_day_start now) last

-- `pendingPayout.create`.
abbrev pub queue_payout : ℕ → ℕ → Books → Books
queue_payout id amount b = record b {
  pending =
      b.pending
      ++ record { id = b.next_payout; user_id = id; amount = amount; claimed = false } ∷ [];
  next_payout = b.next_payout + 1;
}

-- What is due is paid from the vault, or queued where it has too little. Was it paid?
abbrev pub pay_or_queue : ℕ → ℕ → Bool × Books → Option (Bool × Books)
pay_or_queue id amount (true, b) = elim (award_coins id amount b) [
  | none ↦ none
  | some c ↦ some (true, c)
]
pay_or_queue id amount (false, b) = some (false, queue_payout id amount b)

-- 0, the amount, and the amount taken off 0.
pub data Bounty : Type 0 where
  no_bounty paid queued : Bounty

abbrev pub bounty_of : Option (Bool × Books) → Option (Bounty × Books)
bounty_of none = none
bounty_of (some (true, b)) = some (paid, b)
bounty_of (some (false, b)) = some (queued, b)

abbrev pub bounty_for : ℕ → ℕ → Books → Option User → Option (Bounty × Books)
bounty_for id now b none = some (no_bounty, b)
bounty_for id now b (some u) =
    if won_today u.last_daily_win now
    then some (no_bounty, b)
    else bounty_of (
        pay_or_queue id daily_bounty_amount (
          withdraw_from_vault daily_bounty_amount (record b {
            users = change_user id (λ x. record x { last_daily_win = some now }) b.users;
          })))

unfoldable pub award_daily_bounty : ℕ → ℕ → Books → Option (Bounty × Books)
award_daily_bounty id now b = bounty_for id now b (find_user id b.users)

-- `checkDailyBounty`: a first win of the day would be paid its bounty.
abbrev pub bounty_due : ℕ → Option User → ℕ
bounty_due now none = 0
bounty_due now (some u) = if won_today u.last_daily_win now then 0 else daily_bounty_amount

unfoldable pub check_daily_bounty : ℕ → ℕ → Books → ℕ
check_daily_bounty id now b = bounty_due now (find_user id b.users)

abbrev pub long_enough : Option ℕ → ℕ → Bool
long_enough none ended_at = true
long_enough (some started_at) ended_at = leb (started_at + 120000) ended_at

-- `isValidWager`, of the length of the move history and the times in milliseconds.
unfoldable pub is_valid_wager : Option ℕ → Option ℕ → ℕ → Bool
is_valid_wager none started_at ended_at = false
is_valid_wager (some moves) started_at ended_at =
    not (ltb moves 10) && long_enough started_at ended_at
