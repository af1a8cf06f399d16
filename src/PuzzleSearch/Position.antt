-- ===== src/PuzzleSearch/Position.antt =====
-- Positions and the clones of the search: searchClone, toPosition, fromPosition, mirror, countPieces and
-- material of shared/puzzleSearch.js. Scores are in units of 1/20, as those of `evaluate`.
use purecheckers.Base.{
  ℕ, ◌+◌, ◌-◌, Bool, true, false, if◌then◌else◌, none, some, List, [], ◌∷◌, is_empty, replicate,
}
use purecheckers.Base.Int.{ℤ, pos, ◌+ℤ◌, ◌-ℤ◌}
use purecheckers.Board.{Color, opponent, same_color, red, Piece, Cell, Board, cell, write, squares}
use purecheckers.Game.{Game, all_valid_moves}
use purecheckers.Puzzle.{Position}

unfoldable pub to_position : Game → Position
to_position g = record { board = g.board; current_player = g.current_player }

-- `searchClone` of a game: no clocks and no histories.
unfoldable pub search_clone : Game → Game
search_clone g = record g {
  turn_time = 0;
  red_time = 0;
  black_time = 0;
  move_history = [];
  position_history = [];
  moves_without_capture = 0;
}

abbrev pub bare_board : Board
bare_board = replicate 8 (replicate 8 none)

-- `searchClone(null)`.
abbrev pub bare_game : Game
bare_game = record {
  turn_time = 0;
  board = bare_board;
  current_player = red;
  chain_piece = none;
  game_over = false;
  winner = none;
  draw_reason = none;
  red_time = 0;
  black_time = 0;
  move_history = [];
  position_history = [];
  moves_without_capture = 0;
}

abbrev pub lost_if_stuck : Bool → Game → Game
lost_if_stuck stuck g =
    if stuck then record g { game_over = true; winner = some (opponent g.current_player) } else g

unfoldable pub from_position : Position → Game
from_position p =
    let g = record bare_game { board = p.board; current_player = p.current_player } in
    lost_if_stuck (is_empty (all_valid_moves g g.current_player)) g

abbrev pub count_cell : Cell → ℕ
count_cell none = 0
count_cell (some p) = 1

unfoldable pub count_from : Board → List (ℕ × ℕ) → ℕ
count_from b [] = 0
count_from b ((r, c) ∷ rest) = count_cell (cell b r c) + count_from b rest

-- `countPieces` of the search, which counts both sides.
unfoldable pub count_all : Board → ℕ
count_all b = count_from b squares

abbrev pub value_of : Bool → ℤ
value_of queen = if queen then pos 100 else pos 20

abbrev pub add_material : Cell → Color → ℤ → ℤ
add_material none color score = score
add_material (some p) color score =
    if same_color p.color color then score +ℤ value_of p.queen else score -ℤ value_of p.queen

unfoldable pub material_from : Board → Color → ℤ → List (ℕ × ℕ) → ℤ
material_from b color score [] = score
material_from b color score ((r, c) ∷ rest) =
    material_from b color (add_material (cell b r c) color score) rest

unfoldable pub material : Board → Color → ℤ
material b color = material_from b color (pos 0) squares

-- The piece as the other side's.
abbrev pub other_piece : Piece → Piece
other_piece p = record { color = opponent p.color; queen = p.queen }

abbrev pub mirror_cell : Cell → ℕ → ℕ → Board → Board
mirror_cell none r c out = out
mirror_cell (some p) r c out = write out (7 - r) (7 - c) (some (other_piece p))

unfoldable pub mirror_from : Board → Board → List (ℕ × ℕ) → Board
mirror_from src out [] = out
mirror_from src out ((r, c) ∷ rest) = mirror_from src (mirror_cell (cell src r c) r c out) rest

unfoldable pub mirror : Position → Position
mirror p = record {
  board = mirror_from p.board bare_board squares;
  current_player = opponent p.current_player;
}
