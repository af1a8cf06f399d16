-- ===== src/Moves.antt =====
-- The moves of one piece: getCaptures, getSimpleMoves and their helpers of CheckersGame in
-- shared/game.js. The `while` loops along a ray take fuel; eight rounds from distance 1 leave the
-- board in every direction (Moves/Rays).
pub mod Rays
pub mod Captures
pub mod Simple
use package.purecheckers.Base.{
  ℕ, zero, suc, ◌+◌, Bool, true, false, if◌then◌else◌, List, [], ◌∷◌, ◌++◌, flat_map, map,
}
use package.purecheckers.Board.{
  Color, red, black, opponent, same_color, Piece, Board, Slot, outside, empty, occupied, Sign,
  minus, plus, shift, Direction, directions, at, look,
}

-- `{ toRow, toCol, captured }`, and with `fromRow` and `fromCol` a whole move.
pub record Hop : Type 0 where
  pub to_row : ℕ
  pub to_col : ℕ
  pub captured : List (ℕ × ℕ)

pub record Move : Type 0 where
  pub from_row : ℕ
  pub from_col : ℕ
  pub to_row : ℕ
  pub to_col : ℕ
  pub captured : List (ℕ × ℕ)

-- `{ fromRow: r, fromCol: c, ...m }`.
abbrev pub move_from : ℕ → ℕ → Hop → Move
move_from r c h = record {
  from_row = r;
  from_col = c;
  to_row = h.to_row;
  to_col = h.to_col;
  captured = h.captured;
}

abbrev pub is_color : Color → Slot → Bool
is_color color outside = false
is_color color empty = false
is_color color (occupied p) = same_color p.color color

abbrev pub is_free : Slot → Bool
is_free empty = true
is_free outside = false
is_free (occupied p) = false

abbrev pub hop_to : ℕ → ℕ → Direction → ℕ → List (ℕ × ℕ) → Hop
hop_to r c (dr, dc) d captured = record {
  to_row = shift r dr d;
  to_col = shift c dc d;
  captured = captured;
}

abbrev pub square_at : ℕ → ℕ → Direction → ℕ → ℕ × ℕ
square_at r c (dr, dc) d = (shift r dr d, shift c dc d)

module _ (b : Board) (r c : ℕ) where
  -- The body of the loop of `_manCaptures`.
  unfoldable pub man_capture : Color → Direction → List Hop
  man_capture enemy dir =
      if is_color enemy (look b r c dir 1)
      then if is_free (look b r c dir 2)
        then hop_to r c dir 2 (square_at r c dir 1 ∷ []) ∷ []
        else []
      else []

  unfoldable pub man_captures : Piece → List Hop
  man_captures p = flat_map (man_capture (opponent p.color)) directions

  -- `while (at(...) === null) dist++`.
  unfoldable pub scan : Direction → ℕ → ℕ → ℕ
  scan dir zero dist = dist
  scan dir (suc fuel) dist = elim (is_free (look b r c dir dist)) [
    | true ↦ scan dir fuel (dist + 1)
    | false ↦ dist
  ]

  -- The loops that push one move for each free square of a ray.
  unfoldable pub slide : Direction → List (ℕ × ℕ) → ℕ → ℕ → List Hop
  slide dir captured zero dist = []
  slide dir captured (suc fuel) dist = elim (is_free (look b r c dir dist)) [
    | true ↦ hop_to r c dir dist captured ∷ slide dir captured fuel (dist + 1)
    | false ↦ []
  ]

  -- The body of the loop of `_queenCaptures`.
  unfoldable pub queen_capture : Color → Direction → List Hop
  queen_capture enemy dir =
      let dist = scan dir 8 1 in
      if is_color enemy (look b r c dir dist)
      then slide dir (square_at r c dir dist ∷ []) 8 (dist + 1)
      else []

  unfoldable pub queen_captures : Piece → List Hop
  queen_captures p = flat_map (queen_capture (opponent p.color)) directions

  unfoldable pub captures : List Hop
  captures = elim (at b r c) [
    | outside ↦ []
    | empty ↦ []
    | occupied p ↦ if p.queen then queen_captures p else man_captures p
  ]

  abbrev pub forward : Color → Sign
  forward red = minus
  forward black = plus

  unfoldable pub man_step : Direction → List Hop
  man_step dir = if is_free (look b r c dir 1) then hop_to r c dir 1 [] ∷ [] else []

  unfoldable pub man_moves : Piece → List Hop
  man_moves p = flat_map (λ dc. man_step (forward p.color, dc)) (minus ∷ plus ∷ [])

  unfoldable pub queen_moves : List Hop
  queen_moves = flat_map (λ dir. slide dir [] 8 1) directions

  unfoldable pub simple_moves : List Hop
  simple_moves = elim (at b r c) [
    | outside ↦ []
    | empty ↦ []
    | occupied p ↦ if p.queen then queen_moves else man_moves p
  ]
