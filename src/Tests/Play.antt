-- ===== src/Tests/Play.antt =====
-- The engine's theorems at small positions.
use purecheckers.Base.{◌≡◌, refl, length, some, ◌∷◌, [], ℕ, ◌<◌, true, List, inl, arith, ◌∈◌, ◌↔◌}
use purecheckers.Board.{red, cell}
use purecheckers.Board.Cells.{IsBoard, IsBoard-rows}
use purecheckers.Moves.{Move}
use purecheckers.Game
use purecheckers.Game.{Game, MoveResult}
use purecheckers.Game.Engine.{engine}
use purecheckers.Game.Legal.{IsLegal, all_valid_moves_iff}
use purecheckers.Game.Turns.{Plays}
use purecheckers.Game.Effect.{cell_after}
use purecheckers.Game.Material.{make_move-cells}
use purecheckers.Game.Reach.{Reached, starts, moves, Reached-moves, Reached-undrawn}
use purecheckers.Game.Invariant.{Inv}
use purecheckers.GameHistory.Replayed.{IsReplayable, Reached-IsReplayable}
use purecheckers.Tests
use purecheckers.Tests.{duel_board, duel, duel_after}

opening_moves : length (Game.all_valid_moves (Game.new_game 60) red) ≡ 7
unfolding engine
opening_moves = refl

abbrev taking : Move
taking = record { from_row = 4; from_col = 3; to_row = 2; to_col = 5; captured = (3, 4) ∷ [] }

duel_takes : Game.all_valid_moves duel red ≡ taking ∷ []
unfolding engine
duel_takes = refl

duel_chain : (duel_after.1.chain_continues ≡ true) × (duel_after.0.chain_piece ≡ some (2, 5))
unfolding engine
duel_chain = (refl, refl)

duel_plays : Game.make_move duel 4 3 2 5 ≡ some duel_after
unfolding engine
duel_plays = refl

duel_IsBoard : IsBoard duel_board
duel_IsBoard = IsBoard-rows duel_board refl (omega arith)

taking_listed : taking ∈ Game.all_valid_moves duel red
unfolding engine
taking_listed = inl refl

taking-IsLegal : IsLegal duel taking
taking-IsLegal = (all_valid_moves_iff duel taking).0 taking_listed

all_valid_moves_iff_example : (taking ∈ Game.all_valid_moves duel red) ↔ IsLegal duel taking
all_valid_moves_iff_example = all_valid_moves_iff duel taking

make_move-cells_example :
    (played : Plays duel 4 3 2 5 duel_after) × (duel_after.1.captured ≡ played.move.captured)
    × IsBoard duel_after.0.board
    × ((i j : ℕ) → cell duel_after.0.board i j ≡ cell_after duel_board played.piece played.move i j)
make_move-cells_example = make_move-cells duel 4 3 2 5 duel_after duel_IsBoard duel_plays

abbrev opened : Game × MoveResult
opened = Tests.or_else (Game.make_move (Game.new_game 60) 5 2 4 3) Tests.refused

opened_Reached : Reached 60 opened.0
unfolding engine
opened_Reached = moves 5 2 4 3 opened starts refl

Reached-moves_example :
    (m : Move) × (m ∈ Game.all_valid_moves opened.0 opened.0.current_player)
    × (after : Game × MoveResult) × (Game.make_move opened.0 m.from_row m.from_col m.to_row m.to_col
        ≡ some after)
Reached-moves_example = Reached-moves opened_Reached (unfold engine in refl)

Reached-undrawn_example :
    ((t : List ℕ) → Game.count_text t opened.0.position_history < 3)
    × (opened.0.moves_without_capture < 50)
Reached-undrawn_example = Reached-undrawn opened_Reached (unfold engine in refl)

pub duel-Inv : Inv duel
unfolding engine
duel-Inv = record {
  board = duel_IsBoard;
  live = λ _. record { moves = refl; repeats = λ t. omega arith; captures_due = omega arith };
}

-- After the first capture of the chain, `_finishChain` takes the second.

Reached-IsReplayable_example : IsReplayable 60 opened.0
Reached-IsReplayable_example = Reached-IsReplayable 60 opened_Reached
