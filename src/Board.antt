-- ===== src/Board.antt =====
-- The board of shared/game.js: eight rows of eight cells, each empty or with a piece, and the
-- lookups and writes of its class CheckersGame. A coordinate is a natural number; a number of the
-- program that is negative or no integer is off the board, like one that is too large.
pub mod Cells
use package.purecheckers.Base.{
  ℕ, ◌+◌, ◌-◌, ◌*◌, ◌%◌, Bool, true, false, not, ◌&&◌, ◌||◌, ltb, leb, ◌==◌, if◌then◌else◌, Option,
  none, some, List, [], ◌∷◌, ◌++◌, map, get_or, set, flat_map, range_from,
}

pub data Color : Type 0 where
  red black : Color

abbrev pub opponent : Color → Color
opponent red = black
opponent black = red

abbrev pub same_color : Color → Color → Bool
same_color red red = true
same_color black black = true
same_color _ _ = false

pub record Piece : Type 0 where
  pub color : Color
  pub queen : Bool

abbrev pub Cell : Type 0
Cell = Option Piece

abbrev pub Board : Type 0
Board = List (List Cell)

-- What `at` returns: `undefined` off the board, `null` for an empty cell, or the piece.
pub data Slot : Type 0 where
  outside empty : Slot
  occupied : Piece → Slot

abbrev pub slot_of : Cell → Slot
slot_of none = empty
slot_of (some p) = occupied p

-- `board[r][c]`, for coordinates that are in range.
unfoldable pub cell : Board → ℕ → ℕ → Cell
cell b r c = get_or (get_or b r []) c none

-- `board[r][c] = v`.
unfoldable pub write : Board → ℕ → ℕ → Cell → Board
write b r c v = set b r (set (get_or b r []) c v)

abbrev pub in_board : ℕ → ℕ → Bool
in_board r c = ltb r 8 && ltb c 8

unfoldable pub at : Board → ℕ → ℕ → Slot
at b r c = if in_board r c then slot_of (cell b r c) else outside

-- One part of a direction: -1 or 1.
pub data Sign : Type 0 where
  minus plus : Sign

-- `r + d * s`, as long as that is not negative.
abbrev pub shift : ℕ → Sign → ℕ → ℕ
shift r plus d = r + d
shift r minus d = r - d

abbrev pub fits : ℕ → Sign → ℕ → Bool
fits r plus d = true
fits r minus d = leb d r

abbrev pub Direction : Type 0
Direction = Sign × Sign

abbrev pub directions : List Direction
directions = (minus, minus) ∷ (minus, plus) ∷ (plus, minus) ∷ (plus, plus) ∷ []

-- `at(r + d * dr, c + d * dc)`.
unfoldable pub look : Board → ℕ → ℕ → Direction → ℕ → Slot
look b r c (dr, dc) d =
    if fits r dr d && fits c dc d then at b (shift r dr d) (shift c dc d) else outside

abbrev pub row_squares : ℕ → List (ℕ × ℕ)
row_squares r = map (λ c. (r, c)) (range_from 0 8)

-- The squares in the order of the nested loops over rows and columns.
unfoldable pub squares : List (ℕ × ℕ)
unfolding flat_map
squares = flat_map row_squares (range_from 0 8)

-- The cells of one row of the starting position; `dark` squares hold a man.
abbrev start_cell : Color → ℕ → ℕ → Cell
start_cell color r c =
    if (r + c) % 2 == 1 then some (record { color = color; queen = false }) else none

abbrev start_row : ℕ → List Cell
start_row r =
    map
      (λ c. if ltb r 3 then start_cell black r c else if leb 5 r then start_cell red r c else none)
      (range_from 0 8)

-- The board that `reset` sets up.
unfoldable pub start_board : Board
start_board = map start_row (range_from 0 8)
