-- ===== src/Game/Material.antt =====
-- `makeMove` changes the board as the rules say, and keeps the material: the mover keeps all
-- pieces, and the opponent loses the captured ones.
use purecheckers.Base.{
  ℕ, ◌+◌, ◌<◌, ◌≡◌, refl, sym, subst, ap, ◌∙◌, inl, inr, Bool, true, false, not, ◌&&◌, ◌==◌,
  if◌then◌else◌, Bool-cases, none, some, List, length, arith, is_empty,
}
use purecheckers.Board.{
  Color, opponent, same_color, Piece, Cell, Board, occupied, slot_of, cell, write, at,
}
use purecheckers.Board.Cells.{IsBoard, cell-write}
use purecheckers.Moves.{Move}
use purecheckers.Game.{
  Game, MoveResult, remove_all, moved_board, count_pieces, play, make_move, end_turn, pass_turn,
  check_game_over, check_forced_draw,
}
use purecheckers.Game.Rules.{occupied_inside}
use purecheckers.Game.Legal.{IsLegal}
use purecheckers.Game.Turns.{Footing, IsLegal-Footing, Plays, make_move-Plays}
use purecheckers.Game.Count.{count_pieces-write}
use purecheckers.Game.Effect.{
  Loses, nothing, one, IsLegal-Loses, cell_after, Apart, cell-moved_board, cell-cleared_goal,
  cell-lifted, remove_all-IsBoard, moved_board-IsBoard, lifted-IsBoard, placed-IsBoard, crown,
}

-- Ending a turn leaves the board alone.
end_turn-board : (g : Game) (captured : Bool) → (end_turn g captured).board ≡ g.board
unfolding end_turn check_game_over check_forced_draw pass_turn
end_turn-board g captured = ground arith

pub play-board : (g : Game) (p : Piece) (m : Move) → (play g p m).0.board ≡ moved_board g.board p m
unfolding play
play-board g p m = ground (
  arith,
  end_turn-board (record g { board = moved_board g.board p m }) (not (is_empty m.captured)),
)

play-captured : (g : Game) (p : Piece) (m : Move) → (play g p m).1.captured ≡ m.captured
unfolding play
play-captured g p m = refl

module _ (g : Game) (m : Move) (l : IsLegal g m) where
  foot : Footing g m
  foot = IsLegal-Footing g m l

  ends_differ : (m.from_row == m.to_row && m.from_col == m.to_col) ≡ false
  ends_differ = elim (Bool-cases (m.from_row == m.to_row && m.from_col == m.to_col)) [
    | inr e ↦ e
    | inl e ↦
        let p : m.from_row ≡ m.to_row = ground arith in
        let q : m.from_col ≡ m.to_col = ground arith in
        absurd (ground (arith, foot.landing, foot.stands))
  ]

  legal_Apart : Loses g m → Apart m m.captured
  legal_Apart (nothing e) = rw e tt
  legal_Apart (one r c q e s own) =
      let (hr, hc) = occupied_inside g.board r c q s in
      let ne : (m.to_row == r && m.to_col == c) ≡ false = ground (arith, foot.landing, s) in
      rw e (hr, hc, ne, tt)

  legal_cells :
      (p : Piece) (i j : ℕ)
      → IsBoard g.board
      → cell (moved_board g.board p m) i j ≡ cell_after g.board p m i j
  legal_cells p i j ib =
      cell-moved_board g.board p m ib foot.start foot.goal i j (legal_Apart (IsLegal-Loses g m l))
        ends_differ

-- After a played move every cell is as the rules say: the piece has moved, crowned on the last row,
-- the captured piece is gone, and the other cells are as before.
pub make_move-cells :
    (g : Game) (fr fc tr tc : ℕ) (after : Game × MoveResult)
    → IsBoard g.board
    → make_move g fr fc tr tc ≡ some after
    → (played : Plays g fr fc tr tc after) × (after.1.captured ≡ played.move.captured)
      × IsBoard after.0.board
      × ((i j : ℕ) → cell after.0.board i j ≡ cell_after g.board played.piece played.move i j)
make_move-cells g fr fc tr tc after ib e =
    let plays = make_move-Plays g fr fc tr tc after e in
    let m = plays.move in
    let p = plays.piece in
    let f = IsLegal-Footing g m plays.legal in
    let q = ap (λ z. z.0.board) plays.result ∙ play-board g p m in
    (
      plays,
      ap (λ z. z.1.captured) plays.result ∙ play-captured g p m,
      rw q (moved_board-IsBoard g.board p m ib f.start f.goal),
      λ i j. ap (λ z. cell z i j) q ∙ legal_cells g m plays.legal p i j ib,
    )

count-crown :
    (p : Piece) (m : Move) (x : Board) (color : Color)
    → IsBoard x
    → m.to_row < 8
    → m.to_col < 8
    → cell x m.to_row m.to_col ≡ some p
    → count_pieces (crown p m x) color ≡ count_pieces x color
unfolding crown
count-crown p m x color ix hr hc e = ground (
  arith,
  count_pieces-write x m.to_row m.to_col (some (record p { queen = true })) color ix hr hc,
)

cell_of_slot :
    (b : Board) (r c : ℕ) (v : Cell) → r < 8 → c < 8 → at b r c ≡ slot_of v → cell b r c ≡ v
unfolding at
cell_of_slot b r c v hr hc e = ground arith

module _ (g : Game) (m : Move) (l : IsLegal g m) (ib : IsBoard g.board) (color : Color) where
  abbrev ft : Footing g m
  ft = IsLegal-Footing g m l

  abbrev onto : Board
  onto = write g.board m.to_row m.to_col (some ft.piece)

  abbrev off : Board
  off = write onto m.from_row m.from_col none

  onto-IsBoard : IsBoard onto
  onto-IsBoard = placed-IsBoard g.board ft.piece m ib ft.start ft.goal

  off-IsBoard : IsBoard off
  off-IsBoard = lifted-IsBoard g.board ft.piece m ib ft.start ft.goal

  from_cell : cell g.board m.from_row m.from_col ≡ some ft.piece
  from_cell =
      cell_of_slot g.board m.from_row m.from_col (some ft.piece) ft.start.0 ft.start.1 ft.stands

  to_cell : cell g.board m.to_row m.to_col ≡ none
  to_cell = cell_of_slot g.board m.to_row m.to_col none ft.goal.0 ft.goal.1 ft.landing

  onto-cell : cell onto m.from_row m.from_col ≡ some ft.piece
  onto-cell = ground (
    arith,
    cell-write g.board m.to_row m.to_col m.from_row m.from_col (some ft.piece) ib ft.goal.0
        ft.goal.1,
    from_cell,
    ends_differ g m l,
  )

  -- Moving a piece keeps every count.
  count-off : count_pieces off color ≡ count_pieces g.board color
  count-off =
      let put =
        count_pieces-write g.board m.to_row m.to_col (some ft.piece) color ib ft.goal.0 ft.goal.1 in
      let lift =
        count_pieces-write onto m.from_row m.from_col none color onto-IsBoard ft.start.0
          ft.start.1 in
      let put' = rw to_cell at put in let lift' = rw onto-cell at lift in omega arith

  -- The weight of what is captured.
  abbrev lost : List (ℕ × ℕ) → ℕ
  lost l = if same_color color (opponent g.current_player) then length l else 0

  abbrev Balance : List (ℕ × ℕ) → Type 0
  Balance l = count_pieces (remove_all off l) color + lost l ≡ count_pieces g.board color

  count-cleared : Loses g m → Balance m.captured
  unfolding remove_all
  count-cleared (nothing e) = subst Balance (sym e) (ground (arith, count-off))
  count-cleared (one r c q e s own) =
      let (hr, hc) = occupied_inside g.board r c q s in
      let was : cell off r c ≡ some q = ground (
        arith,
        cell-lifted g.board ft.piece m ib ft.start ft.goal r c,
        cell_of_slot g.board r c (some q) hr hc s,
        from_cell,
        to_cell,
        own,
        ft.own,
      ) in
      let taken = count_pieces-write off r c none color off-IsBoard hr hc in
      let taken' = rw was at taken in subst Balance (sym e) (ground (arith, count-off))

  pub count-moved_board :
      count_pieces (moved_board g.board ft.piece m) color + lost m.captured
      ≡ count_pieces g.board color
  unfolding moved_board crown
  count-moved_board =
      let apart = legal_Apart g m l (IsLegal-Loses g m l) in
      let crowned =
        count-crown ft.piece m (remove_all off m.captured) color
          (remove_all-IsBoard g.board ft.piece m ib ft.start ft.goal off m.captured off-IsBoard)
          ft.goal.0 ft.goal.1
          (cell-cleared_goal g.board ft.piece m ib ft.start ft.goal apart (ends_differ g m l)) in
      omega (arith, count-cleared (IsLegal-Loses g m l))

pub same_piece :
    (b : Board) (r c i j : ℕ) (p q : Piece)
    → r ≡ i
    → c ≡ j
    → at b r c ≡ occupied p
    → at b i j ≡ occupied q
    → p ≡ q
same_piece b r c i j p q e f x y = cc (ap (λ k. at b k c) e, ap (λ k. at b i k) f)

-- A played move keeps the number of pieces of the mover, and takes from the opponent as many pieces
-- as it reports captured.
pub make_move-material :
    (g : Game) (fr fc tr tc : ℕ) (after : Game × MoveResult)
    → IsBoard g.board
    → make_move g fr fc tr tc ≡ some after
    → (count_pieces after.0.board g.current_player ≡ count_pieces g.board g.current_player)
      × (count_pieces after.0.board (opponent g.current_player) + length after.1.captured
          ≡ count_pieces g.board (opponent g.current_player))
make_move-material g fr fc tr tc after ib e =
    let plays = make_move-Plays g fr fc tr tc after e in
    let m = plays.move in
    let f = IsLegal-Footing g m plays.legal in
    let same =
      same_piece g.board m.from_row m.from_col fr fc f.piece plays.piece plays.from.0 plays.from.1
        f.stands plays.stands in
    let board : after.0.board ≡ moved_board g.board f.piece m =
      ap (λ z. z.0.board) plays.result
      ∙ play-board g plays.piece m
      ∙ ap (λ z. moved_board g.board z m) (sym same) in
    let caps = ap (λ z. z.1.captured) plays.result ∙ play-captured g plays.piece m in
    let own = count-moved_board g m plays.legal ib g.current_player in
    let other = count-moved_board g m plays.legal ib (opponent g.current_player) in
    rw (board, caps) (ground arith, ground arith)
