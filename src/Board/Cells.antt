-- ===== src/Board/Cells.antt =====
-- Reading a board of eight rows of eight cells after a write.
use purecheckers.Base.{
  zero, suc, ℕ_discrete, ◌∷◌, ℕ, ◌<◌, ◌≡◌, ◌∙◌, ◌≢◌, ◌⊎◌, ◌&&◌, ◌==◌, if◌then◌else◌, none, [],
  length, get_or, set, length-set, get_or-set_self, get_or-set_ne, arith, ◌∈◌, mem-flat_map,
  mem-map, mem-range_from, range_from,
}
use purecheckers.Board.{Board, Cell, outside, slot_of, cell, write, at, row_squares, squares}

pub record IsBoard (b : Board) : Type 0 where
  pub rows : length b ≡ 8
  pub columns : (r : ℕ) → r < 8 → length (get_or b r []) ≡ 8

pub write-IsBoard : (b : Board) (r c : ℕ) (v : Cell) → IsBoard b → IsBoard (write b r c v)
unfolding write
write-IsBoard b r c v ib = record {
  rows = length-set b r _ ∙ ib.rows;
  columns = λ j h. elim (ℕ_discrete r j) [
    | yes e ↦ rw (← e) (
        rw (get_or-set_self b r (set (get_or b r []) c v) [] (rw (e, ib.rows) h))
          (length-set (get_or b r []) c v ∙ ib.columns r (rw e h)))
    | no ne ↦ rw (get_or-set_ne b r j (set (get_or b r []) c v) [] ne) (ib.columns j h)
  ];
}

pub cell-write_self :
    (b : Board) (r c : ℕ) (v : Cell) → IsBoard b → r < 8 → c < 8 → cell (write b r c v) r c ≡ v
unfolding cell write
cell-write_self b r c v ib hr hc =
    rw (get_or-set_self b r (set (get_or b r []) c v) [] (rw ib.rows hr))
      (get_or-set_self (get_or b r []) c v none (rw (ib.columns r hr) hc))

pub cell-write_ne :
    (b : Board) (r c i j : ℕ) (v : Cell)
    → IsBoard b
    → r < 8
    → (r ≢ i) ⊎ (c ≢ j)
    → cell (write b r c v) i j ≡ cell b i j
unfolding cell write
cell-write_ne b r c i j v ib hr ne = elim (ℕ_discrete r i) [
  | no n ↦ rw (get_or-set_ne b r i (set (get_or b r []) c v) [] n)
  | yes e ↦ rw (← e) (
      rw (get_or-set_self b r (set (get_or b r []) c v) [] (rw ib.rows hr))
        (get_or-set_ne (get_or b r []) c j v none (ground arith)))
]

-- One law for reads after a write.
pub cell-write :
    (b : Board) (r c i j : ℕ) (v : Cell)
    → IsBoard b
    → r < 8
    → c < 8
    → cell (write b r c v) i j ≡ (if r == i && c == j then v else cell b i j)
cell-write b r c i j v ib hr hc =
    ground (arith, cell-write_self b r c v ib, cell-write_ne b r c i j v ib)

-- On the board `at` is never `undefined`, and reads the cell.
pub at_inside : (b : Board) (r c : ℕ) → r < 8 → c < 8 → at b r c ≡ slot_of (cell b r c)
unfolding at
at_inside b r c hr hc = ground arith

pub at-ne-outside :
    (b : Board) (r c : ℕ)
    → at b r c ≢ outside
    → (r < 8) × (c < 8) × (at b r c ≡ slot_of (cell b r c))
unfolding at
at-ne-outside b r c h = ground arith

-- `squares` holds each square of the board.
pub mem-squares : (r c : ℕ) → r < 8 → c < 8 → (r, c) ∈ squares
unfolding squares
mem-squares r c hr hc =
    mem-flat_map row_squares (range_from 0 8) r (r, c)
      (mem-range_from 8 0 r (omega arith) (omega arith))
      (mem-map (λ k. (r, k)) (range_from 0 8) c (mem-range_from 8 0 c (omega arith) (omega arith)))

abbrev EightEach : Board → Type 0
EightEach [] = Unit {0}
EightEach (row ∷ rest) = (length row ≡ 8) × EightEach rest

get_or-EightEach : (b : Board) (r : ℕ) → EightEach b → r < length b → length (get_or b r []) ≡ 8
get_or-EightEach [] r e h = absurd (omega arith)
get_or-EightEach (row ∷ rest) zero e h = e.0
get_or-EightEach (row ∷ rest) (suc r) e h = get_or-EightEach rest r e.1 (omega arith)

pub IsBoard-rows : (b : Board) → length b ≡ 8 → EightEach b → IsBoard b
IsBoard-rows b n e = record { rows = n; columns = λ r h. get_or-EightEach b r e (omega arith) }
