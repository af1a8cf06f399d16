-- ===== src/Economy/Milestones.antt =====
-- The rewards for ratings: checkMilestones of server/services/vault.js.
use purecheckers.Base.{ℕ, Bool, not, ◌&&◌, if◌then◌else◌, Option, none, some, List, [], ◌∷◌, ◌++◌}
use purecheckers.Base.Int.{ℤ, pos, leb_ℤ}
use purecheckers.Economy.{User, Books, find_user, change_user, withdraw_from_vault, pay_or_queue}

pub record Milestone : Type 0 where
  pub elo : ℕ
  pub reward : ℕ

abbrev pub elo_milestones : List Milestone
elo_milestones =
    record { elo = 1200; reward = 10 }
    ∷ record { elo = 1400; reward = 20 }
    ∷ record { elo = 1600; reward = 35 }
    ∷ record { elo = 1800; reward = 50 }
    ∷ record { elo = 2000; reward = 75 }
    ∷ []

-- The milestones awarded, each with whether it was paid.
abbrev pub Awarded : Type 0
Awarded = List (Milestone × Bool) × Books

abbrev pub go_on_with :
    Milestone
    → List (Milestone × Bool)
    → (List (Milestone × Bool) → Books → Option Awarded)
    → Option (Bool × Books)
    → Option Awarded
go_on_with m awarded go none = none
go_on_with m awarded go (some (was_paid, b)) = go (awarded ++ (m, was_paid) ∷ []) b

abbrev pub is_new : ℤ → ℤ → Milestone → Bool
is_new new_elo peak m = leb_ℤ (pos m.elo) new_elo && not (leb_ℤ (pos m.elo) peak)

-- The loop over the milestones; `peak` is the user's `peakElo` before it.
unfoldable pub award_milestones :
    ℕ → ℤ → ℤ → List Milestone → List (Milestone × Bool) → Books → Option Awarded
award_milestones id new_elo peak [] awarded b = some (awarded, b)
award_milestones id new_elo peak (m ∷ ms) awarded b =
    let skipped = award_milestones id new_elo peak ms awarded b in
    let given =
      go_on_with m awarded (λ a c. award_milestones id new_elo peak ms a c)
        (pay_or_queue id m.reward (withdraw_from_vault m.reward b)) in
    if is_new new_elo peak m then given else skipped

abbrev pub raise_peak : ℕ → ℤ → ℤ → Option Awarded → Option Awarded
raise_peak id new_elo peak none = none
raise_peak id new_elo peak (some (awarded, b)) = some (
  awarded,
  if not (leb_ℤ new_elo peak)
      then record b { users = change_user id (λ x. record x { peak_elo = new_elo }) b.users }
      else b,
)

abbrev pub milestones_for : ℕ → ℤ → Books → Option User → Option Awarded
milestones_for id new_elo b none = some ([], b)
milestones_for id new_elo b (some u) =
    raise_peak id new_elo u.peak_elo (award_milestones id new_elo u.peak_elo elo_milestones [] b)

unfoldable pub check_milestones : ℕ → ℤ → Books → Option Awarded
check_milestones id new_elo b = milestones_for id new_elo b (find_user id b.users)
