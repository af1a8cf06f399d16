-- ===== src/Game/Progress.antt =====
-- A played move keeps the invariant: a chain goes on with a capture, or the turn ends.
use purecheckers.Base.{
  ℕ, ◌<◌, ◌≡◌, refl, sym, subst, ap, ◌∙◌, inl, inr, Bool, true, false, not, Bool-cases, some, List,
  [], ◌∷◌, arith, is_empty, ◌∈◌,
}
use purecheckers.Board.{Piece, Board, occupied, slot_of, at}
use purecheckers.Board.Cells.{at_inside}
use purecheckers.Moves.{Move, move_from, captures}
use purecheckers.Moves.Captures.{mem-captures_iff}
use purecheckers.Game.{
  Game, MoveResult, Played, all_valid_moves, chain_elsewhere, end_turn, promotes, moved_board,
  continues, play, make_move, record_move,
}
use purecheckers.Game.Rules.{Takes, not_empty_mem}
use purecheckers.Game.Legal.{takes, all_valid_moves_iff}
use purecheckers.Game.Turns.{IsLegal-Footing, Plays}
use purecheckers.Game.Effect.{cell_after, promoted_piece}
use purecheckers.Game.Material.{make_move-cells, play-board, same_piece}
use purecheckers.Game.Invariant.{Inv, Live, LiveIfOngoing, SamePlay, SamePlay-Live, end_turn-Live}

pub mem_not_empty : {A : Type 0} (xs : List A) (x : A) → x ∈ xs → is_empty xs ≡ false
mem_not_empty [] x h = absurd h
mem_not_empty (y ∷ xs) x h = refl

-- A piece with a capture, in a chain at its square, is not stuck.
chain_moves :
    (g : Game) (r c : ℕ) (p : Piece)
    → g.chain_piece ≡ some (r, c)
    → at g.board r c ≡ occupied p
    → p.color ≡ g.current_player
    → r < 8
    → c < 8
    → is_empty (captures g.board r c) ≡ false
    → is_empty (all_valid_moves g g.current_player) ≡ false
chain_moves g r c p chain stands own hr hc some_capture =
    let (h, mem) = not_empty_mem (captures g.board r c) some_capture in
    let m = move_from r c h in
    let t : Takes g.board g.current_player m = record {
      piece = p;
      stands = stands;
      own = own;
      hop = h;
      made = refl;
      rule = (mem-captures_iff g.board r c hr hc p h stands).0 mem;
    } in
    let here : chain_elsewhere g.chain_piece r c ≡ false =
      subst (λ o. chain_elsewhere o r c ≡ false) (sym chain) (ground arith) in
    mem_not_empty (all_valid_moves g g.current_player) m
      ((all_valid_moves_iff g m).1 (takes t here))

-- The two ways in which a played move leaves the game.
data Outcome (g : Game) (p : Piece) (m : Move) : Type 0 where
  goes_on :
      continues (moved_board g.board p m) p m ≡ true
      → (play g p m).0.chain_piece ≡ some (m.to_row, m.to_col)
      → (play g p m).0.current_player ≡ g.current_player
      → (play g p m).0.position_history ≡ g.position_history
      → (play g p m).0.moves_without_capture ≡ g.moves_without_capture
      → Outcome g p m
  ends :
      (entry : Played) (captured : Bool)
      → (play g p m).0
        ≡ record_move (end_turn (record g { board = moved_board g.board p m }) captured) entry
      → Outcome g p m

outcome : (g : Game) (p : Piece) (m : Move) → Outcome g p m
unfolding play
outcome g p m = elim (Bool-cases (continues (moved_board g.board p m) p m)) [
  | inl e ↦ goes_on e (rw e) (rw e) (rw e) (rw e)
  | inr e ↦
      ends
        (record {
          from_row = m.from_row;
          from_col = m.from_col;
          to_row = m.to_row;
          to_col = m.to_col;
          captured = m.captured;
          promoted = promotes p m.to_row;
          chain_continues = false;
        })
        (not (is_empty m.captured)) (rw e)
]

continues-captures :
    (b : Board) (p : Piece) (m : Move)
    → continues b p m ≡ true
    → (is_empty (captures b m.to_row m.to_col) ≡ false) × (promotes p m.to_row ≡ false)
unfolding continues
continues-captures b p m h = ground arith

record_move-SamePlay : (g : Game) (entry : Played) → SamePlay g (record_move g entry)
record_move-SamePlay g entry = record {
  board = refl;
  turn = refl;
  chain = refl;
  positions = refl;
  quiet = refl;
}

cell_after_goal :
    (b : Board) (p : Piece) (m : Move)
    → cell_after b p m m.to_row m.to_col ≡ some (promoted_piece p m.to_row)
cell_after_goal b p m = ground arith

module _ (g : Game) (fr fc tr tc : ℕ) (after : Game × MoveResult) (i : Inv g)
    (e : make_move g fr fc tr tc ≡ some after) where
  abbrev plays : Plays g fr fc tr tc after
  plays = (make_move-cells g fr fc tr tc after i.board e).0

  abbrev m : Move
  m = plays.move

  abbrev p : Piece
  p = plays.piece

  result : after.0 ≡ (play g p m).0
  result = ap (λ z. z.0) plays.result

  own : p.color ≡ g.current_player
  own =
      let f = IsLegal-Footing g m plays.legal in
      ap (λ z. z.color)
        (sym (
          same_piece g.board m.from_row m.from_col fr fc f.piece p plays.from.0 plays.from.1
            f.stands plays.stands))
      ∙ f.own

  goal_cell : promotes p m.to_row ≡ false → at after.0.board m.to_row m.to_col ≡ occupied p
  goal_cell plain =
      let f = IsLegal-Footing g m plays.legal in
      let here = (make_move-cells g fr fc tr tc after i.board e).3 m.to_row m.to_col in
      at_inside after.0.board m.to_row m.to_col f.goal.0 f.goal.1
      ∙ ap slot_of (here ∙ cell_after_goal g.board p m)
      ∙ ground (arith, plain)

  chain-Live :
      continues (moved_board g.board p m) p m ≡ true
      → (play g p m).0.chain_piece ≡ some (m.to_row, m.to_col)
      → (play g p m).0.current_player ≡ g.current_player
      → (play g p m).0.position_history ≡ g.position_history
      → (play g p m).0.moves_without_capture ≡ g.moves_without_capture
      → Live after.0
  chain-Live c chain turn positions quiet =
      let was = i.live plays.ongoing in
      let f = IsLegal-Footing g m plays.legal in
      let (some_capture, plain) = continues-captures (moved_board g.board p m) p m c in
      let board = ap (λ z. z.board) result ∙ play-board g p m in
      record {
        moves =
            chain_moves after.0 m.to_row m.to_col p (ap (λ z. z.chain_piece) result ∙ chain)
              (goal_cell plain) (own ∙ sym (ap (λ z. z.current_player) result ∙ turn)) f.goal.0
              f.goal.1 (ap (λ z. is_empty (captures z m.to_row m.to_col)) board ∙ some_capture);
        repeats = λ t. rw (ap (λ z. z.position_history) result ∙ positions) (was.repeats t);
        captures_due = rw (ap (λ z. z.moves_without_capture) result ∙ quiet) was.captures_due;
      }

  ends-Live :
      (entry : Played) (captured : Bool)
      → (play g p m).0
        ≡ record_move (end_turn (record g { board = moved_board g.board p m }) captured) entry
      → LiveIfOngoing after.0
  ends-Live entry captured q o =
      let was = i.live plays.ongoing in
      let turned = end_turn (record g { board = moved_board g.board p m }) captured in
      let whole : after.0 ≡ record_move turned entry = result ∙ q in
      let open_ : turned.game_over ≡ false = ap (λ z. z.game_over) (sym whole) ∙ o in
      subst Live (sym whole) (
        SamePlay-Live turned (record_move turned entry) (record_move-SamePlay turned entry)
          (end_turn-Live (record g { board = moved_board g.board p m }) captured was.repeats open_))

  -- A played move keeps the invariant.
  pub make_move-Inv : Inv after.0
  make_move-Inv = record {
    board = (make_move-cells g fr fc tr tc after i.board e).2;
    live = λ o. elim (outcome g p m) [
      | goes_on c chain turn positions quiet ↦ chain-Live c chain turn positions quiet
      | ends entry captured q ↦ ends-Live entry captured q o
    ];
  }
