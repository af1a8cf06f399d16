-- ===== src/PuzzleSearch/Mirror.antt =====
-- The mirrored position, mirrored, is the position.
use purecheckers.Base.{
  ℕ, zero, suc, ◌-◌, ◌<◌, ◌≡◌, ◌≢◌, ℕ_discrete, refl, ap, sym, subst, ◌∙◌, ◌⊎◌, inl, inr, none,
  some, List, [], ◌∷◌, ◌∈◌, length, get_or, arith, replicate, range_from, flat_map-mem, map-mem,
  ◌+◌,
}
use purecheckers.Board.{Color, red, black, opponent, Cell, Board, cell, write, squares, row_squares}
use purecheckers.Board.Cells.{
  IsBoard, IsBoard-rows, write-IsBoard, cell-write_self, cell-write_ne, mem-squares,
}
use purecheckers.Puzzle.{Position}
use purecheckers.PuzzleSearch.Position.{bare_board, other_piece, mirror_cell, mirror_from, mirror}

abbrev other_cell : Cell → Cell
other_cell none = none
other_cell (some p) = some (other_piece p)

opponent_twice : (c : Color) → opponent (opponent c) ≡ c
opponent_twice red = refl
opponent_twice black = refl

other_cell_twice : (c : Cell) → other_cell (other_cell c) ≡ c
other_cell_twice none = refl
other_cell_twice (some p) =
    ap (λ z. some (record { color = z; queen = p.queen })) (opponent_twice p.color)

twice_back : (i : ℕ) → i < 8 → 7 - (7 - i) ≡ i
twice_back i h = omega (arith, h)

list_ext :
    {A : Type 0} (d : A) (xs ys : List A)
    → length xs ≡ length ys
    → ((i : ℕ) → i < length xs → get_or xs i d ≡ get_or ys i d)
    → xs ≡ ys
list_ext d [] [] l h = refl
list_ext d [] (y ∷ ys) l h = absurd (omega (arith, l))
list_ext d (x ∷ xs) [] l h = absurd (omega (arith, l))
list_ext d (x ∷ xs) (y ∷ ys) l h =
    ap (λ z. z ∷ xs) (h 0 (omega arith))
    ∙ ap (λ z. y ∷ z) (list_ext d xs ys (omega (arith, l)) (λ i k. h (suc i) (omega (arith, k))))

board_ext :
    (a b : Board)
    → IsBoard a
    → IsBoard b
    → ((i j : ℕ) → i < 8 → j < 8 → cell a i j ≡ cell b i j)
    → a ≡ b
unfolding cell
board_ext a b ia ib h = list_ext [] a b (ia.rows ∙ sym ib.rows) (λ i k.
    let inside : i < 8 = rw (sym ia.rows) k in
    list_ext none (get_or a i []) (get_or b i []) (ia.columns i inside ∙ sym (ib.columns i inside))
      (λ j l. h i j inside (rw (sym (ia.columns i inside)) l)))

get_or-replicate : {A : Type 0} (n i : ℕ) (a d : A) → i < n → get_or (replicate n a) i d ≡ a
get_or-replicate zero i a d h = absurd (omega (arith, h))
get_or-replicate (suc n) zero a d h = refl
get_or-replicate (suc n) (suc i) a d h = get_or-replicate n i a d (omega (arith, h))

bare_cell : (i j : ℕ) → i < 8 → j < 8 → cell bare_board i j ≡ none
unfolding cell
bare_cell i j hi hj =
    ap (λ (z : List Cell). get_or z j none) (get_or-replicate 8 i (replicate 8 none) [] hi)
    ∙ get_or-replicate 8 j none none hj

range_from-bound : (n i k : ℕ) → k ∈ range_from i n → k < i + n
range_from-bound zero i k h = absurd h
range_from-bound (suc n) i k (inl e) = omega (arith, e)
range_from-bound (suc n) i k (inr h) = omega (arith, range_from-bound n (i + 1) k h)

squares_inside : (s : ℕ × ℕ) → s ∈ squares → (s.0 < 8) × (s.1 < 8)
unfolding squares
squares_inside s m =
    let (r, hr, k) = flat_map-mem row_squares (range_from 0 8) s m in
    let (c, hc, e) = map-mem (λ z. (r, z)) (range_from 0 8) s k in
    (
      rw (ap (λ (z : ℕ × ℕ). z.0) e) (range_from-bound 8 0 r hr),
      rw (ap (λ (z : ℕ × ℕ). z.1) e) (range_from-bound 8 0 c hc),
    )

module _ (src : Board) where
  abbrev target : ℕ → ℕ → Cell
  target i j = other_cell (cell src (7 - i) (7 - j))

  -- A square of the mirrored board is done, or empty and still to come.
  abbrev Left : Board → List (ℕ × ℕ) → Type 0
  Left out ss =
      (i j : ℕ)
      → i < 8
      → j < 8
      → (cell out i j ≡ target i j) ⊎ ((cell out i j ≡ none) × ((7 - i, 7 - j) ∈ ss))

  abbrev Inside : List (ℕ × ℕ) → Type 0
  Inside ss = (s : ℕ × ℕ) → s ∈ ss → (s.0 < 8) × (s.1 < 8)

  mirror_cell-IsBoard :
      (o : Cell) (r c : ℕ) (out : Board) → IsBoard out → IsBoard (mirror_cell o r c out)
  mirror_cell-IsBoard none r c out b = b
  mirror_cell-IsBoard (some p) r c out b =
      write-IsBoard out (7 - r) (7 - c) (some (other_piece p)) b

  step-Left :
      (r c : ℕ) (ss : List (ℕ × ℕ)) (out : Board) (o : Cell)
      → IsBoard out
      → r < 8
      → c < 8
      → cell src r c ≡ o
      → Left out ((r, c) ∷ ss)
      → Left (mirror_cell o r c out) ss
  step-Left r c ss out none b hr hc e left i j hi hj = elim (left i j hi hj) [
    | inl q ↦ inl q
    | inr (n, inl q) ↦
        inl (n ∙ sym (ap (λ (s : ℕ × ℕ). other_cell (cell src s.0 s.1)) q ∙ ap other_cell e))
    | inr (n, inr m) ↦ inr (n, m)
  ]
  step-Left r c ss out (some p) b hr hc e left i j hi hj =
      let v : Cell = some (other_piece p) in
      let stays : ((7 - r) ≢ i) ⊎ ((7 - c) ≢ j)
          → (cell (write out (7 - r) (7 - c) v) i j ≡ target i j)
            ⊎ ((cell (write out (7 - r) (7 - c) v) i j ≡ none) × ((7 - i, 7 - j) ∈ ss)) =
        λ apart.
          let same = cell-write_ne out (7 - r) (7 - c) i j v b (omega arith) apart in
          elim (left i j hi hj) [
            | inl q ↦ inl (same ∙ q)
            | inr (n, inl q) ↦
                let qr : 7 - i ≡ r = ap (λ (s : ℕ × ℕ). s.0) q in
                let qc : 7 - j ≡ c = ap (λ (s : ℕ × ℕ). s.1) q in
                absurd
                  (elim apart [ inl k ↦ k (omega (arith, qr)) | inr k ↦ k (omega (arith, qc)) ])
            | inr (n, inr m) ↦ inr (same ∙ n, m)
          ] in
      elim (ℕ_discrete (7 - r) i) [
        | no k ↦ stays (inl k)
        | yes er ↦ elim (ℕ_discrete (7 - c) j) [
          | no k ↦ stays (inr k)
          | yes ec ↦
              let back_r : r ≡ 7 - i = omega (arith, er) in
              let back_c : c ≡ 7 - j = omega (arith, ec) in
              let here : cell (write out (7 - r) (7 - c) v) i j ≡ v =
                subst (λ z. cell (write out (7 - r) (7 - c) v) z j ≡ v) er
                  (subst (λ z. cell (write out (7 - r) (7 - c) v) (7 - r) z ≡ v) ec
                    (cell-write_self out (7 - r) (7 - c) v b (omega arith) (omega arith))) in
              inl (
                here
                ∙ ap other_cell (sym e)
                ∙ ap (λ z. other_cell (cell src z c)) back_r
                ∙ ap (λ z. other_cell (cell src (7 - i) z)) back_c)
        ]
      ]

  mirror_from-cells :
      (ss : List (ℕ × ℕ)) (out : Board)
      → IsBoard out
      → Inside ss
      → Left out ss
      → IsBoard (mirror_from src out ss)
        × ((i j : ℕ) → i < 8 → j < 8 → cell (mirror_from src out ss) i j ≡ target i j)
  unfolding mirror_from
  mirror_from-cells [] out b inside left =
      (b, λ i j hi hj. elim (left i j hi hj) [ inl q ↦ q | inr (n, m) ↦ absurd m ])
  mirror_from-cells ((r, c) ∷ ss) out b inside left =
      let at_board = inside (r, c) (inl refl) in
      mirror_from-cells ss (mirror_cell (cell src r c) r c out)
        (mirror_cell-IsBoard (cell src r c) r c out b) (λ s m. inside s (inr m))
        (step-Left r c ss out (cell src r c) b at_board.0 at_board.1 refl left)

  bare-IsBoard : IsBoard bare_board
  bare-IsBoard = IsBoard-rows bare_board refl (omega arith)

  bare-Left : Left bare_board squares
  unfolding cell
  bare-Left i j hi hj =
      inr (bare_cell i j hi hj, mem-squares (7 - i) (7 - j) (omega arith) (omega arith))

  squares-Inside : Inside squares
  squares-Inside s m = squares_inside s m

  -- The cells of the mirrored board.
  pub mirror-cells :
      IsBoard (mirror_from src bare_board squares)
      × ((i j : ℕ) → i < 8 → j < 8 → cell (mirror_from src bare_board squares) i j ≡ target i j)
  mirror-cells = mirror_from-cells squares bare_board bare-IsBoard squares-Inside bare-Left

-- On a board of eight rows of eight cells the mirror of the mirrored position is the position.
pub mirror-mirror : (p : Position) → IsBoard p.board → mirror (mirror p) ≡ p
unfolding mirror
mirror-mirror p b =
    let once = mirror-cells p.board in
    let twice = mirror-cells (mirror_from p.board bare_board squares) in
    let same : mirror_from (mirror_from p.board bare_board squares) bare_board squares ≡ p.board =
      board_ext (mirror_from (mirror_from p.board bare_board squares) bare_board squares) p.board
        twice.0 b
        (λ i j hi hj.
          twice.1 i j hi hj
          ∙ ap other_cell (once.1 (7 - i) (7 - j) (omega arith) (omega arith))
          ∙ other_cell_twice (cell p.board (7 - (7 - i)) (7 - (7 - j)))
          ∙ ap (λ z. cell p.board z (7 - (7 - j))) (twice_back i hi)
          ∙ ap (λ z. cell p.board i z) (twice_back j hj)) in
    ap (λ z. record { board = z; current_player = opponent (opponent p.current_player) }) same
    ∙ ap (λ z. record { board = p.board; current_player = z }) (opponent_twice p.current_player)
