-- ===== src/Game/Count.antt =====
-- `countPieces` after one write on the board.
use purecheckers.Base.{
  ℕ, ◌+◌, ◌*◌, ◌<◌, ◌≤◌, length, ◌≡◌, refl, Bool, true, false, ◌&&◌, ◌==◌, ==_iff, if◌then◌else◌,
  Bool-cases, inl, inr, List, ◌∈◌, [], ◌∷◌, arith,
}
use purecheckers.Board.{Color, Cell, Board, slot_of, cell, at, write, squares}
use purecheckers.Board.Cells.{IsBoard, mem-squares, cell-write, at_inside}
use purecheckers.Moves.{is_color}
use purecheckers.Game.{count_on, count_pieces}

-- How often a square stands in a list.
multiplicity : ℕ → ℕ → List (ℕ × ℕ) → ℕ
multiplicity r c [] = 0
multiplicity r c ((i, j) ∷ rest) = (if r == i && c == j then 1 else 0) + multiplicity r c rest

passes : {A : Type 0} → (A → Bool) → List A → Bool
passes test [] = true
passes test (x ∷ rest) = passes test rest && test x

mem-passes :
    {A : Type 0} (test : A → Bool) (l : List A) (x : A)
    → passes test l ≡ true
    → x ∈ l
    → test x ≡ true
unfolding passes
mem-passes test [] x h m = absurd m
mem-passes test (y ∷ rest) x h (inl e) = rw e (ground arith)
mem-passes test (y ∷ rest) x h (inr m) = mem-passes test rest x (ground arith) m

stands_once : ℕ × ℕ → Bool
stands_once (r, c) = multiplicity r c squares == 1

all_once : passes stands_once squares ≡ true
unfolding passes stands_once multiplicity squares
all_once = refl

multiplicity-squares : (r c : ℕ) → r < 8 → c < 8 → multiplicity r c squares ≡ 1
unfolding stands_once
multiplicity-squares r c hr hc =
    (==_iff (multiplicity r c squares) 1).0
      (mem-passes stands_once squares (r, c) all_once (mem-squares r c hr hc))

-- 1 for a cell with a piece of the colour.
abbrev pub weight : Color → Cell → ℕ
weight color v = if is_color color (slot_of v) then 1 else 0

module _ (b : Board) (r c : ℕ) (v : Cell) (color : Color) (ib : IsBoard b) (hr : r < 8)
    (hc : c < 8) where
  at-write_self : at (write b r c v) r c ≡ slot_of v
  unfolding at
  at-write_self = ground (arith, cell-write b r c r c v ib hr hc)

  at-write_other : (i j : ℕ) → (r == i && c == j) ≡ false → at (write b r c v) i j ≡ at b i j
  unfolding at
  at-write_other i j e = ground (arith, cell-write b r c i j v ib hr hc)

  count_on-write :
      (l : List (ℕ × ℕ))
      → count_on (write b r c v) color l + multiplicity r c l * weight color (cell b r c)
        ≡ count_on b color l + multiplicity r c l * weight color v
  unfolding count_on multiplicity
  count_on-write [] = omega arith
  count_on-write ((i, j) ∷ l) = elim (Bool-cases (r == i && c == j)) [
    | inl e ↦
        let p : r ≡ i = ground arith in
        let q : c ≡ j = ground arith in
        rw (e, ← p, ← q, at-write_self, at_inside b r c hr hc) (omega (arith, count_on-write l))
    | inr e ↦ rw (e, at-write_other i j e) (omega (arith, count_on-write l))
  ]

  pub count_pieces-write :
      count_pieces (write b r c v) color + weight color (cell b r c)
      ≡ count_pieces b color + weight color v
  unfolding count_pieces
  count_pieces-write =
      let e = rw (multiplicity-squares r c hr hc) at (count_on-write squares) in omega arith

count_on_le : (b : Board) (color : Color) (l : List (ℕ × ℕ)) → count_on b color l ≤ length l
unfolding count_on
count_on_le b color [] = omega arith
count_on_le b color ((r, c) ∷ l) = ground (arith, count_on_le b color l)

-- A board has 64 squares.
pub count_pieces_le : (b : Board) (color : Color) → count_pieces b color ≤ 64
unfolding count_pieces squares
count_pieces_le b color = count_on_le b color squares
