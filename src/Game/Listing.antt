-- ===== src/Game/Listing.antt =====
-- The lists of moves of CheckersGame: getAllCaptures, getValidMovesFor and getAllValidMoves.
use purecheckers.Base.{
  ℕ, Bool, true, false, not, ◌&&◌, ◌||◌, ◌==◌, if◌then◌else◌, Option, none, some, List, [], ◌∷◌,
  map, flat_map, is_empty,
}
use purecheckers.Board.{Color, Board, at, squares}
use purecheckers.Moves.{Move, move_from, is_color, captures, simple_moves}
use purecheckers.Game.State.{Game}

-- The captures of one square for the scan of `getAllCaptures`.
abbrev pub captures_of : Board → Color → ℕ × ℕ → List Move
captures_of b color (r, c) =
    if is_color color (at b r c) then map (move_from r c) (captures b r c) else []

unfoldable pub all_captures : Board → Color → List Move
all_captures b color = flat_map (captures_of b color) squares

abbrev pub simple_of : Board → Color → ℕ × ℕ → List Move
simple_of b color (r, c) =
    if is_color color (at b r c) then map (move_from r c) (simple_moves b r c) else []

unfoldable pub all_simple : Board → Color → List Move
all_simple b color = flat_map (simple_of b color) squares

abbrev pub chain_elsewhere : Option (ℕ × ℕ) → ℕ → ℕ → Bool
chain_elsewhere none r c = false
chain_elsewhere (some (row, col)) r c = not (row == r) || not (col == c)

abbrev pub in_chain : Option (ℕ × ℕ) → Bool
in_chain none = false
in_chain (some s) = true

unfoldable pub valid_moves_for : Game → ℕ → ℕ → List Move
valid_moves_for g r c =
    if not (is_color g.current_player (at g.board r c))
    then []
    else if chain_elsewhere g.chain_piece r c
    then []
    else if not (is_empty (all_captures g.board g.current_player))
    then map (move_from r c) (captures g.board r c)
    else if in_chain g.chain_piece
    then []
    else map (move_from r c) (simple_moves g.board r c)

-- `getAllValidMoves(color)`: a continued capture comes first, then captures, then simple moves.
unfoldable pub all_valid_moves : Game → Color → List Move
all_valid_moves g color = elim g.chain_piece [
  | some (row, col) ↦ valid_moves_for g row col
  | none ↦
      let caps = all_captures g.board color in
      if not (is_empty caps) then caps else all_simple g.board color
]

-- `valid.find(m => m.toRow === toRow && m.toCol === toCol)`.
unfoldable pub find_move : List Move → ℕ → ℕ → Option Move
find_move [] tr tc = none
find_move (m ∷ ms) tr tc = if m.to_row == tr && m.to_col == tc then some m else find_move ms tr tc
