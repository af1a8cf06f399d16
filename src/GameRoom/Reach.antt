-- ===== src/GameRoom/Reach.antt =====
-- What holds of every draft that the commands and timers reach.
use purecheckers.Base.{ℕ, refl, Option, arith}
use purecheckers.Game.{new_game}
use purecheckers.Game.Reach.{starts}
use purecheckers.Game.Reach
use purecheckers.GameRoom.{Seats, Draft, Command, new_draft, mutation, step}
use purecheckers.GameRoom.Kept.{IsKept, commit-IsKept}
use purecheckers.GameRoom.Keeps.{mutation-Keeps}

module _ (turn_time : ℕ) (s : Seats) where
  -- The drafts that commands and timers reach.
  pub data Reached : Draft → Type 0 where
    opens : (now : ℕ) → Reached (new_draft turn_time now)
    steps :
        {d : Draft} (now : ℕ) (elapsed : Option ℕ) (c : Command)
        → Reached d
        → Reached (step s now elapsed d c)

  -- In every reached game that is not over, the rules' own game is one that moves and clock ticks reach
  -- from a new game, and before its start it has no moves; a pending draw offer is a player's; and a
  -- game that is over has its end and its reason, and no offer.
  pub Reached-IsKept : {d : Draft} → Reached d → IsKept turn_time s d
  unfolding new_draft new_game step
  Reached-IsKept (opens now) = record {
    going = record {
      playable = λ _. Reach.starts;
      unstarted = λ _ _. refl;
      offers = λ user e. absurd (ground arith);
    };
    closed = λ t. absurd (ground arith);
  }
  Reached-IsKept (steps {d = d} now elapsed c r) =
      let k = Reached-IsKept r in
      commit-IsKept turn_time s now d (mutation s now elapsed d c) k
        (mutation-Keeps turn_time s now elapsed d c k.going)
