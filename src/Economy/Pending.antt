-- ===== src/Economy/Pending.antt =====
-- The claim of a queued payout: claimPendingPayout of server/services/vault.js.
use purecheckers.Base.{
  ℕ, ◌==◌, Bool, true, false, not, if◌then◌else◌, Option, none, some, List, [], ◌∷◌,
}
use purecheckers.Economy.{PendingPayout, Books, coin_amount, award_coins, withdraw_from_vault}

pub data ClaimOutcome : Type 0 where
  not_found insufficient : ClaimOutcome
  success : ℕ → ClaimOutcome

unfoldable pub find_payout : ℕ → List PendingPayout → Option PendingPayout
find_payout id [] = none
find_payout id (p ∷ ps) = if p.id == id then some p else find_payout id ps

unfoldable pub mark_claimed : ℕ → List PendingPayout → List PendingPayout
mark_claimed id [] = []
mark_claimed id (p ∷ ps) =
    if p.id == id then record p { claimed = true } ∷ ps else p ∷ mark_claimed id ps

abbrev pub finish_claim_of : ℕ → ℕ → Option Books → Option (ClaimOutcome × Books)
finish_claim_of payout amount none = none
finish_claim_of payout amount (some b) =
    some (success amount, record b { pending = mark_claimed payout b.pending })

abbrev pub claim_from : ℕ → ℕ → ℕ → Bool × Books → Option (ClaimOutcome × Books)
claim_from payout id amount (true, b) = finish_claim_of payout amount (award_coins id amount b)
claim_from payout id amount (false, b) = some (insufficient, b)

abbrev pub claim_of : ℕ → ℕ → Books → Option PendingPayout → Option (ClaimOutcome × Books)
claim_of payout id b none = some (not_found, b)
claim_of payout id b (some p) =
    if not (p.user_id == id)
    then some (not_found, b)
    else if p.claimed
    then some (success p.amount, b)
    else if coin_amount p.amount
    then claim_from payout id p.amount (withdraw_from_vault p.amount b)
    else none

unfoldable pub claim_pending_payout : ℕ → ℕ → Books → Option (ClaimOutcome × Books)
claim_pending_payout payout id b = claim_of payout id b (find_payout payout b.pending)
