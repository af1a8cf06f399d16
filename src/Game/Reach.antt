-- ===== src/Game/Reach.antt =====
-- Every game that is reached from a new one by moves and the clock keeps the invariant: it is
-- finished, or it has a legal move.
use purecheckers.Base.{ℕ, ◌<◌, ◌≡◌, refl, false, some, List, arith, is_empty, ◌∈◌}
use purecheckers.Board.{red, start_board}
use purecheckers.Board.Cells.{IsBoard-rows, IsBoard}
use purecheckers.Moves.{Move}
use purecheckers.Game.{
  Game, MoveResult, new_game, all_valid_moves, count_text, make_move, tick_time,
}
use purecheckers.Game.Rules.{not_empty_mem}
use purecheckers.Game.Legal.{all_valid_moves_iff}
use purecheckers.Game.Turns.{IsLegal-make_move}
use purecheckers.Game.Invariant.{Inv, tick_time-Inv}
use purecheckers.Game.Progress.{make_move-Inv}
use purecheckers.Game.Engine.{engine}

new_game-board : (turn_time : ℕ) → IsBoard (new_game turn_time).board
unfolding new_game start_board
new_game-board turn_time = IsBoard-rows start_board refl (omega arith)

first_moves : (turn_time : ℕ) → is_empty (all_valid_moves (new_game turn_time) red) ≡ false
unfolding engine
first_moves turn_time = refl

pub new_game-Inv : (turn_time : ℕ) → Inv (new_game turn_time)
unfolding new_game count_text
new_game-Inv turn_time = record {
  board = new_game-board turn_time;
  live = λ _. record {
    moves = first_moves turn_time;
    repeats = λ t. ground arith;
    captures_due = omega arith;
  };
}

-- The games that the class's methods make of a new one.
pub data Reached (turn_time : ℕ) : Game → Type 0 where
  starts : Reached turn_time (new_game turn_time)
  moves :
      {g : Game} (fr fc tr tc : ℕ) (after : Game × MoveResult)
      → Reached turn_time g
      → make_move g fr fc tr tc ≡ some after
      → Reached turn_time after.0
  ticks : {g : Game} (seconds : ℕ) → Reached turn_time g → Reached turn_time (tick_time g seconds)

pub Reached-Inv : {turn_time : ℕ} {g : Game} → Reached turn_time g → Inv g
Reached-Inv {turn_time} starts = new_game-Inv turn_time
Reached-Inv (moves {g = g} fr fc tr tc after r e) =
    make_move-Inv g fr fc tr tc after (Reached-Inv r) e
Reached-Inv (ticks {g = g} seconds r) = tick_time-Inv g seconds (Reached-Inv r)

-- A reached game that is not over, in a chain or not, lists a move, and `makeMove` plays it.
pub Reached-moves :
    {turn_time : ℕ} {g : Game}
    → Reached turn_time g
    → g.game_over ≡ false
    → (m : Move) × (m ∈ all_valid_moves g g.current_player)
      × (after : Game × MoveResult) × (make_move g m.from_row m.from_col m.to_row m.to_col
          ≡ some after)
Reached-moves {g = g} r o =
    let (m, mem) =
      not_empty_mem (all_valid_moves g g.current_player) ((Reached-Inv r).live o).moves in
    let (after, e) = IsLegal-make_move g m o ((all_valid_moves_iff g m).0 mem) in (m, mem, after, e)

-- In a reached game that is not over no position has come up three times, and fewer than 50 turns
-- in a row were without a capture.
pub Reached-undrawn :
    {turn_time : ℕ} {g : Game}
    → Reached turn_time g
    → g.game_over ≡ false
    → ((t : List ℕ) → count_text t g.position_history < 3) × (g.moves_without_capture < 50)
Reached-undrawn {g = g} r o = let live = (Reached-Inv r).live o in (live.repeats, live.captures_due)
