-- ===== src/Game/Effect.antt =====
-- What a legal move does to the board.
use purecheckers.Base.{
  ℕ, ◌<◌, ◌≡◌, refl, ap, ◌∙◌, inl, inr, Bool, true, false, ◌&&◌, ◌||◌, ◌==◌, if◌then◌else◌,
  Bool-cases, none, some, List, [], ◌∷◌, arith,
}
use purecheckers.Board.{opponent, Piece, Cell, Board, occupied, cell, write, at, look, Direction}
use purecheckers.Board.Cells.{IsBoard, write-IsBoard, cell-write}
use purecheckers.Moves.{Move, square_at}
use purecheckers.Game.{Game, remove_all, promotes, moved_board}
use purecheckers.Game.Rules.{Takes, is_color_some}
use purecheckers.Game.Legal.{IsLegal, takes, steps}

look_occupied :
    (b : Board) (r c : ℕ) (dir : Direction) (d : ℕ) (q : Piece)
    → look b r c dir d ≡ occupied q
    → let s = square_at r c dir d in at b s.0 s.1 ≡ occupied q
unfolding look
look_occupied b r c (sr, sc) d q e = ground arith

-- The captured squares of a legal move: none, or one with a piece of the opponent.
pub data Loses (g : Game) (m : Move) : Type 0 where
  nothing : m.captured ≡ [] → Loses g m
  one :
      (r c : ℕ) (q : Piece)
      → m.captured ≡ (r, c) ∷ []
      → at g.board r c ≡ occupied q
      → q.color ≡ opponent g.current_player
      → Loses g m

pub Takes-Loses : (g : Game) (m : Move) → Takes g.board g.current_player m → Loses g m
Takes-Loses g m t =
    let i = t.rule in
    let (q, e, own) =
      is_color_some (opponent t.piece.color) (look g.board m.from_row m.from_col i.dir i.near)
        i.enemy in
    let s = square_at m.from_row m.from_col i.dir i.near in
    one s.0 s.1 q (ap (λ z. z.captured) t.made ∙ ap (λ z. z.captured) i.hop)
      (look_occupied g.board m.from_row m.from_col i.dir i.near q e) (own ∙ ap opponent t.own)

pub IsLegal-Loses : (g : Game) (m : Move) → IsLegal g m → Loses g m
IsLegal-Loses g m (takes t k) = Takes-Loses g m t
IsLegal-Loses g m (steps t k n) =
    nothing (ap (λ z. z.captured) t.made ∙ ap (λ z. z.captured) t.rule.hop)

abbrev pub promoted_piece : Piece → ℕ → Piece
promoted_piece p tr = if promotes p tr then record p { queen = true } else p

abbrev pub is_captured : List (ℕ × ℕ) → ℕ → ℕ → Bool
is_captured [] i j = false
is_captured ((r, c) ∷ rest) i j = (r == i && c == j) || is_captured rest i j

-- The board after a move, cell by cell.
abbrev pub cell_after : Board → Piece → Move → ℕ → ℕ → Cell
cell_after b p m i j =
    if m.to_row == i && m.to_col == j
    then some (promoted_piece p m.to_row)
    else if (m.from_row == i && m.from_col == j) || is_captured m.captured i j
    then none
    else cell b i j

-- Crowning the piece on its new square.
unfoldable pub crown : Piece → Move → Board → Board
crown p m x =
    if promotes p m.to_row then write x m.to_row m.to_col (some (record p { queen = true })) else x

-- The squares of a list are on the board, and none is the goal of the move.
abbrev pub Apart : Move → List (ℕ × ℕ) → Type 0
Apart m [] = Unit {0}
Apart m ((r, c) ∷ rest) =
    (r < 8) × (c < 8) × ((m.to_row == r && m.to_col == c) ≡ false) × Apart m rest

module _ (b : Board) (p : Piece) (m : Move) (ib : IsBoard b)
    (start : (m.from_row < 8) × (m.from_col < 8)) (goal : (m.to_row < 8) × (m.to_col < 8)) where
  abbrev placed : Board
  placed = write b m.to_row m.to_col (some p)

  abbrev lifted : Board
  lifted = write placed m.from_row m.from_col none

  pub placed-IsBoard : IsBoard placed
  placed-IsBoard = write-IsBoard b m.to_row m.to_col (some p) ib

  pub lifted-IsBoard : IsBoard lifted
  lifted-IsBoard = write-IsBoard placed m.from_row m.from_col none placed-IsBoard

  pub cell-lifted :
      (i j : ℕ)
      → cell lifted i j ≡ (
          if m.from_row == i && m.from_col == j
          then none
          else if m.to_row == i && m.to_col == j
          then some p
          else cell b i j)
  cell-lifted i j = ground (
    arith,
    cell-write placed m.from_row m.from_col i j none placed-IsBoard start.0 start.1,
    cell-write b m.to_row m.to_col i j (some p) ib goal.0 goal.1,
  )

  crown-IsBoard : (x : Board) → IsBoard x → IsBoard (crown p m x)
  unfolding crown
  crown-IsBoard x ix = elim (Bool-cases (promotes p m.to_row)) [
    | inl e ↦ rw e (write-IsBoard x m.to_row m.to_col (some (record p { queen = true })) ix)
    | inr e ↦ rw e ix
  ]

  cell-crown :
      (x : Board) (i j : ℕ)
      → IsBoard x
      → cell x m.to_row m.to_col ≡ some p
      → cell (crown p m x) i j
        ≡ (if m.to_row == i && m.to_col == j then some (promoted_piece p m.to_row) else cell x i j)
  unfolding crown
  cell-crown x i j ix e = ground (
    arith,
    cell-write x m.to_row m.to_col i j (some (record p { queen = true })) ix goal.0 goal.1,
  )

  -- Taking the pieces of a list of squares off, none of them the goal.
  pub remove_all-IsBoard : (x : Board) (l : List (ℕ × ℕ)) → IsBoard x → IsBoard (remove_all x l)
  unfolding remove_all
  remove_all-IsBoard x [] ix = ix
  remove_all-IsBoard x ((r, c) ∷ l) ix =
      remove_all-IsBoard (write x r c none) l (write-IsBoard x r c none ix)

  cell-remove_all :
      (x : Board) (l : List (ℕ × ℕ)) (i j : ℕ)
      → IsBoard x
      → Apart m l
      → cell (remove_all x l) i j ≡ (if is_captured l i j then none else cell x i j)
  unfolding remove_all
  cell-remove_all x [] i j ix a = refl
  cell-remove_all x ((r, c) ∷ l) i j ix (hr, hc, ne, a) =
      cell-remove_all (write x r c none) l i j (write-IsBoard x r c none ix) a
      ∙ ground (arith, cell-write x r c i j none ix hr hc)

  Apart-goal : (l : List (ℕ × ℕ)) → Apart m l → is_captured l m.to_row m.to_col ≡ false
  Apart-goal [] a = refl
  Apart-goal ((r, c) ∷ l) (hr, hc, ne, a) = ground (arith, Apart-goal l a)

  pub moved_board-IsBoard : IsBoard (moved_board b p m)
  unfolding moved_board crown
  moved_board-IsBoard =
      crown-IsBoard (remove_all lifted m.captured)
        (remove_all-IsBoard lifted m.captured lifted-IsBoard)

  pub cell-cleared_goal :
      Apart m m.captured
      → (m.from_row == m.to_row && m.from_col == m.to_col) ≡ false
      → cell (remove_all lifted m.captured) m.to_row m.to_col ≡ some p
  cell-cleared_goal a ne = ground (
    arith,
    cell-remove_all lifted m.captured m.to_row m.to_col lifted-IsBoard a,
    Apart-goal m.captured a,
    cell-lifted m.to_row m.to_col,
  )

  pub cell-moved_board :
      (i j : ℕ)
      → Apart m m.captured
      → (m.from_row == m.to_row && m.from_col == m.to_col) ≡ false
      → cell (moved_board b p m) i j ≡ cell_after b p m i j
  unfolding moved_board crown
  cell-moved_board i j a ne =
      let cleared = remove_all lifted m.captured in
      cell-crown cleared i j (remove_all-IsBoard lifted m.captured lifted-IsBoard)
        (cell-cleared_goal a ne)
      ∙ ground (arith, cell-remove_all lifted m.captured i j lifted-IsBoard a, cell-lifted i j)
