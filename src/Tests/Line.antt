-- ===== src/Tests/Line.antt =====
-- The check of a puzzle's solution at a puzzle whose player takes two pieces in one turn.
use purecheckers.Base.{◌≡◌, ◌↔◌, refl, true, false, some, [], ◌∷◌, is_empty}
use purecheckers.Board.{red}
use purecheckers.Game.Engine.{engine}
use purecheckers.Puzzle.{
  Hop, StoredMove, Puzzle, puzzle_game, move_hops, same_hop, same_turn, next_game, play_hops,
  follows, validate_puzzle_solve,
}
use purecheckers.Puzzle.Solve.{Line, own_turns, validate_puzzle_solve_iff}
use purecheckers.Tests.{duel_board}

abbrev first_hop : Hop
first_hop = record { from_row = 4; from_col = 3; to_row = 2; to_col = 5 }

abbrev second_hop : Hop
second_hop = record { from_row = 2; from_col = 5; to_row = 0; to_col = 3 }

abbrev double_take : StoredMove
double_take = record {
  whole = record { from_row = 4; from_col = 3; to_row = 0; to_col = 3 };
  hops = some (first_hop ∷ second_hop ∷ []);
}

abbrev duel_puzzle : Puzzle
duel_puzzle = record {
  position = record { board = duel_board; current_player = red };
  solution = double_take ∷ [];
}

duel_solved : validate_puzzle_solve duel_puzzle ((first_hop ∷ second_hop ∷ []) ∷ []) ≡ true
unfolding engine puzzle_game move_hops same_hop same_turn next_game play_hops follows
    validate_puzzle_solve
duel_solved = refl

duel_half : validate_puzzle_solve duel_puzzle ((first_hop ∷ []) ∷ []) ≡ false
unfolding engine puzzle_game move_hops same_hop same_turn next_game play_hops follows
    validate_puzzle_solve
duel_half = refl

validate_puzzle_solve_iff_example :
    (validate_puzzle_solve duel_puzzle ((first_hop ∷ second_hop ∷ []) ∷ []) ≡ true) ↔ (
      (is_empty duel_puzzle.solution ≡ false)
      × ((first_hop ∷ second_hop ∷ []) ∷ [] ≡ own_turns true duel_puzzle.solution)
      × Line (puzzle_game duel_puzzle.position) duel_puzzle.solution)
validate_puzzle_solve_iff_example =
    validate_puzzle_solve_iff duel_puzzle ((first_hop ∷ second_hop ∷ []) ∷ [])
