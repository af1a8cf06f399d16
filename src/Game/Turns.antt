-- ===== src/Game/Turns.antt =====
-- `makeMove` plays exactly the legal moves of a game that is not over.
use purecheckers.Base.{
  ℕ, ◌<◌, ◌≡◌, sym, inl, inr, true, false, not, ◌&&◌, ◌||◌, ◌==◌, Bool-cases, Option-cases, some,
  List, [], ◌∷◌, arith, ◌∈◌,
}
use purecheckers.Board.{Board, Piece, empty, occupied, at, cell, in_board, Direction, look}
use purecheckers.Board.Cells.{at_inside}
use purecheckers.Moves.{Move, Hop, hop_to, is_free, square_at}
use purecheckers.Moves.Captures.{IsCapture}
use purecheckers.Moves.Simple.{IsSimple}
use purecheckers.Game.{Game, MoveResult, valid_moves_for, find_move, play, make_move}
use purecheckers.Game.Rules.{occupied_inside}
use purecheckers.Game.Legal.{IsLegal, takes, steps, valid-IsLegal, valid_moves_for_iff}

pub find_move-mem :
    (ms : List Move) (tr tc : ℕ) (m : Move)
    → find_move ms tr tc ≡ some m
    → (m ∈ ms) × (m.to_row ≡ tr) × (m.to_col ≡ tc)
unfolding find_move
find_move-mem [] tr tc m h = cc
find_move-mem (x ∷ ms) tr tc m h = elim (Bool-cases (x.to_row == tr && x.to_col == tc)) [
  | inl e ↦ let q : x ≡ m = ground arith in (inl (sym q), ground arith, ground arith)
  | inr e ↦ let (k, p, q) = find_move-mem ms tr tc m (ground arith) in (inr k, p, q)
]

pub mem-find_move :
    (ms : List Move) (m : Move) → m ∈ ms → (m' : Move) × (find_move ms m.to_row m.to_col ≡ some m')
unfolding find_move
mem-find_move [] m h = absurd h
mem-find_move (x ∷ ms) m h = elim (Bool-cases (x.to_row == m.to_row && x.to_col == m.to_col)) [
  | inl e ↦ (x, rw e)
  | inr e ↦ elim h [
    | inl q ↦ absurd (ground arith)
    | inr k ↦ let (m', f) = mem-find_move ms m k in (m', rw e f)
  ]
]

-- A free square is on the board.
free_inside :
    (b : Board) (r c : ℕ) (dir : Direction) (d : ℕ) (captured : List (ℕ × ℕ))
    → is_free (look b r c dir d) ≡ true
    → let h = hop_to r c dir d captured in
      (at b h.to_row h.to_col ≡ empty) × (h.to_row < 8) × (h.to_col < 8)
unfolding look at
free_inside b r c (sr, sc) d captured e = ground arith

pub capture_lands :
    (b : Board) (r c : ℕ) (p : Piece) (h : Hop)
    → IsCapture b r c p h
    → (at b h.to_row h.to_col ≡ empty) × (h.to_row < 8) × (h.to_col < 8)
capture_lands b r c p h i = rw i.hop (
    free_inside b r c i.dir i.far (square_at r c i.dir i.near ∷ [])
      (i.landing i.far (omega (arith, i.beyond)) (omega arith)))

pub simple_lands :
    (b : Board) (r c : ℕ) (p : Piece) (h : Hop)
    → IsSimple b r c p h
    → (at b h.to_row h.to_col ≡ empty) × (h.to_row < 8) × (h.to_col < 8)
simple_lands b r c p h i =
    rw i.hop (free_inside b r c i.dir i.far [] (i.landing i.far i.ahead (omega arith)))

-- The piece of a legal move, and that it lands on a free square of the board.
pub record Footing (g : Game) (m : Move) : Type 0 where
  pub piece : Piece
  pub stands : at g.board m.from_row m.from_col ≡ occupied piece
  pub own : piece.color ≡ g.current_player
  pub start : (m.from_row < 8) × (m.from_col < 8)
  pub landing : at g.board m.to_row m.to_col ≡ empty
  pub goal : (m.to_row < 8) × (m.to_col < 8)

pub IsLegal-Footing : (g : Game) (m : Move) → IsLegal g m → Footing g m
IsLegal-Footing g m (takes t k) =
    let (e, hr, hc) = capture_lands g.board m.from_row m.from_col t.piece t.hop t.rule in
    record {
      piece = t.piece;
      stands = t.stands;
      own = t.own;
      start = occupied_inside g.board m.from_row m.from_col t.piece t.stands;
      landing = ground (arith, t.made);
      goal = ground (arith, t.made);
    }
IsLegal-Footing g m (steps t k n) =
    let (e, hr, hc) = simple_lands g.board m.from_row m.from_col t.piece t.hop t.rule in
    record {
      piece = t.piece;
      stands = t.stands;
      own = t.own;
      start = occupied_inside g.board m.from_row m.from_col t.piece t.stands;
      landing = ground (arith, t.made);
      goal = ground (arith, t.made);
    }

cell_of_at : (b : Board) (r c : ℕ) (p : Piece) → at b r c ≡ occupied p → cell b r c ≡ some p
unfolding at
cell_of_at b r c p e = ground arith

-- `makeMove` has played the legal move `m` with the piece `p` and left `after`.
pub record Plays (g : Game) (fr fc tr tc : ℕ) (after : Game × MoveResult) : Type 0 where
  pub move : Move
  pub legal : IsLegal g move
  pub from : (move.from_row ≡ fr) × (move.from_col ≡ fc)
  pub to : (move.to_row ≡ tr) × (move.to_col ≡ tc)
  pub ongoing : g.game_over ≡ false
  pub piece : Piece
  pub stands : at g.board fr fc ≡ occupied piece
  pub result : after ≡ play g piece move

make_move_found :
    (g : Game) (fr fc tr tc : ℕ) (m : Move) (p : Piece)
    → g.game_over ≡ false
    → in_board fr fc ≡ true
    → in_board tr tc ≡ true
    → find_move (valid_moves_for g fr fc) tr tc ≡ some m
    → cell g.board fr fc ≡ some p
    → make_move g fr fc tr tc ≡ some (play g p m)
unfolding make_move
make_move_found g fr fc tr tc m p o h k f e = ground arith

make_move_inv :
    (g : Game) (fr fc tr tc : ℕ) (after : Game × MoveResult)
    → make_move g fr fc tr tc ≡ some after
    → (m : Move) × (p : Piece) × (g.game_over ≡ false)
      × (find_move (valid_moves_for g fr fc) tr tc ≡ some m)
      × (cell g.board fr fc ≡ some p)
      × (after ≡ play g p m)
unfolding make_move
make_move_inv g fr fc tr tc after h =
    elim (Bool-cases (g.game_over || not (in_board fr fc && in_board tr tc))) [
      | inl e ↦ absurd (ground arith)
      | inr e ↦ elim (Option-cases (find_move (valid_moves_for g fr fc) tr tc)) [
        | inl n ↦ absurd (ground arith)
        | inr (m, f) ↦ elim (Option-cases (cell g.board fr fc)) [
          | inl n ↦ absurd (ground arith)
          | inr (p, q) ↦ (m, p, ground arith, f, q, ground arith)
        ]
      ]
    ]

-- What `makeMove` plays is a legal move of an unfinished game.
pub make_move-Plays :
    (g : Game) (fr fc tr tc : ℕ) (after : Game × MoveResult)
    → make_move g fr fc tr tc ≡ some after
    → Plays g fr fc tr tc after
make_move-Plays g fr fc tr tc after h =
    let (m, p, o, f, q, e) = make_move_inv g fr fc tr tc after h in
    let (k, a, b) = find_move-mem (valid_moves_for g fr fc) tr tc m f in
    let (l, x, y) = valid-IsLegal g fr fc m k in
    let foot = IsLegal-Footing g m l in
    record {
      move = m;
      legal = l;
      from = (x, y);
      to = (a, b);
      ongoing = o;
      piece = p;
      stands = ground (arith, foot.start, foot.stands, at_inside g.board fr fc);
      result = e;
    }

-- Every legal move of an unfinished game is played.
pub IsLegal-make_move :
    (g : Game) (m : Move)
    → g.game_over ≡ false
    → IsLegal g m
    → (after : Game × MoveResult) × (make_move g m.from_row m.from_col m.to_row m.to_col
        ≡ some after)
IsLegal-make_move g m o l =
    let foot = IsLegal-Footing g m l in
    let (m', f) =
      mem-find_move (valid_moves_for g m.from_row m.from_col) m ((valid_moves_for_iff g m).1 l) in
    (
      play g foot.piece m',
      make_move_found g m.from_row m.from_col m.to_row m.to_col m' foot.piece o
          (ground (arith, foot.start)) (ground (arith, foot.goal)) f
          (cell_of_at g.board m.from_row m.from_col foot.piece foot.stands),
    )
