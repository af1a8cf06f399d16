-- ===== src/PuzzleSearch/Hops.antt =====
-- The hops of the game itself among the branches of the search.
use purecheckers.Base.{
  ℕ, ◌≤◌, ◌≡◌, refl, ap, sym, subst, ◌∙◌, inl, inr, true, false, Option, none, some, List, [], ◌∷◌,
  ◌++◌, ◌∈◌, mem-append_left, mem-append_right, map, arith, is_some, length,
}
use purecheckers.Board.{Color, Piece, Board}
use purecheckers.Moves.{Move}
use purecheckers.Game.{
  Game, MoveResult, all_valid_moves, valid_moves_for, moved_board, play, make_move,
}
use purecheckers.Game.Legal.{all_valid_moves_iff}
use purecheckers.Game.Turns.{make_move-Plays}
use purecheckers.Bot.Chain.{some_captured}
use purecheckers.Puzzle.{Hop}
use purecheckers.PuzzleSearch.Position.{bare_game, search_clone}
use purecheckers.PuzzleSearch.Turns.{
  Taken, FullMove, hop_of, describe_square, finish_move, search_play, search_move, branch,
  extend_from,
}
use purecheckers.PuzzleSearch.Spot.{
  result_or, found, played_by, make_move-found, search_move-found, SameSpot, SamePlay,
  SameSpot-found, play-SamePlay, clone-SameSpot, finish_move-hops, finish_move-board,
  finish_move-turn,
}

-- The move of the search for one of the real engine.
pub record Mirrors (g h : Game) (m : Move) (real : Game × MoveResult) : Type 0 where
  pub after : Game × MoveResult
  pub made : search_move (search_clone g) m.from_row m.from_col m.to_row m.to_col ≡ some after
  pub same : SamePlay after real

played-Mirrors :
    (g h : Game) (m : Move) (real : Game × MoveResult) (o : Option (Move × Piece))
    → SameSpot g h
    → found h m.from_row m.from_col m.to_row m.to_col ≡ o
    → played_by (play h) o ≡ some real
    → Mirrors g h m real
played-Mirrors g h m real none s f e = absurd (ground (arith, ap is_some e))
played-Mirrors g h m real (some (n, p)) s f e =
    let c = clone-SameSpot g h s in
    record {
      after = search_play (search_clone g) p n;
      made =
          search_move-found (search_clone g) m.from_row m.from_col m.to_row m.to_col
          ∙ ap (played_by (search_play (search_clone g))) (
              sym (SameSpot-found (search_clone g) h m.from_row m.from_col m.to_row m.to_col c)
              ∙ f);
      same =
          subst (λ z. SamePlay (search_play (search_clone g) p n) z) (ap (result_or real) e)
            (play-SamePlay (search_clone g) h p n c);
    }

make_move-Mirrors :
    (g h : Game) (m : Move) (real : Game × MoveResult)
    → SameSpot g h
    → make_move h m.from_row m.from_col m.to_row m.to_col ≡ some real
    → Mirrors g h m real
make_move-Mirrors g h m real s e =
    played-Mirrors g h m real (found h m.from_row m.from_col m.to_row m.to_col) s refl
      (sym (make_move-found h m.from_row m.from_col m.to_row m.to_col) ∙ e)

-- The moves of a game, of which nothing else counts.
abbrev moves_at : Board → Color → Option (ℕ × ℕ) → List Move
moves_at b color chain =
    all_valid_moves (record bare_game { board = b; current_player = color; chain_piece = chain })
      color

SameSpot-moves :
    (g h : Game)
    → SameSpot g h
    → all_valid_moves h h.current_player ≡ all_valid_moves g g.current_player
unfolding all_valid_moves valid_moves_for
SameSpot-moves g h s =
    ap (λ z. moves_at z h.current_player h.chain_piece) s.board
    ∙ ap (λ z. moves_at g.board z h.chain_piece) s.turn
    ∙ ap (λ z. moves_at g.board g.current_player z) s.chain

mem-extend_from :
    (extend : Game → List Hop → List Taken → List FullMove) (g : Game) (hops : List Hop)
    (captured : List Taken) (ms : List Move) (m : Move) (x : FullMove)
    → m ∈ ms
    → x
      ∈ branch extend hops
          (captured ++ map (describe_square g.board) m.captured)
          m
          (search_move (search_clone g) m.from_row m.from_col m.to_row m.to_col)
    → x ∈ extend_from extend g hops captured ms
unfolding extend_from
mem-extend_from extend g hops captured [] m x h k = absurd h
mem-extend_from extend g hops captured (n ∷ ms) m x (inl e) k =
    mem-append_left x _ (extend_from extend g hops captured ms) (
      subst
        (λ z.
          x
          ∈ branch extend hops (captured ++ map (describe_square g.board) z.captured) z
              (search_move (search_clone g) z.from_row z.from_col z.to_row z.to_col))
        e k)
mem-extend_from extend g hops captured (n ∷ ms) m x (inr i) k =
    mem-append_right x
      (branch extend hops (captured ++ map (describe_square g.board) n.captured) n
        (search_move (search_clone g) n.from_row n.from_col n.to_row n.to_col))
      (extend_from extend g hops captured ms) (mem-extend_from extend g hops captured ms m x i k)

-- One of `xs` is the turn with the hops `hops`, which comes to the position of `result`.
pub record IsListed (xs : List FullMove) (hops : List Hop) (result : Game) : Type 0 where
  pub turn : FullMove
  pub listed : turn ∈ xs
  pub all_hops : turn.hops ≡ hops
  pub board : turn.after.board ≡ result.board
  pub side : turn.after.current_player ≡ result.current_player

-- What is known of a hop that the engine makes.
pub record Made (g h : Game) (hop : Hop) (real : Game × MoveResult) : Type 0 where
  pub move : Move
  pub listed : move ∈ all_valid_moves g g.current_player
  pub is_hop : hop_of move ≡ hop
  pub mirrors : Mirrors g h move real

hop_of-eq :
    (m : Move) (hop : Hop)
    → (m.from_row ≡ hop.from_row) × (m.from_col ≡ hop.from_col)
    → (m.to_row ≡ hop.to_row) × (m.to_col ≡ hop.to_col)
    → hop_of m ≡ hop
hop_of-eq m hop (a, b) (c, d) = rw (a, b, c, d) refl

pub made :
    (g h : Game) (hop : Hop) (real : Game × MoveResult)
    → SameSpot g h
    → make_move h hop.from_row hop.from_col hop.to_row hop.to_col ≡ some real
    → Made g h hop real
made g h hop real s e =
    let plays = make_move-Plays h hop.from_row hop.from_col hop.to_row hop.to_col real e in
    let m = plays.move in
    let q = hop_of-eq m hop plays.from plays.to in
    record {
      move = m;
      listed = subst (λ z. m ∈ z) (SameSpot-moves g h s) ((all_valid_moves_iff h m).1 plays.legal);
      is_hop = q;
      mirrors =
          make_move-Mirrors g h m real s
            (ap (λ z. make_move h z.from_row z.from_col z.to_row z.to_col) q ∙ e);
    }

play_goes_on :
    (g : Game) (p : Piece) (m : Move)
    → (play g p m).1.chain_continues ≡ true
    → (1 ≤ length (play g p m).1.captured) × ((play g p m).0.current_player ≡ g.current_player)
unfolding play
play_goes_on g p m e = (some_captured (moved_board g.board p m) p m e, rw e refl)

pub chain_goes_on :
    (h : Game) (fr fc tr tc : ℕ) (real : Game × MoveResult)
    → make_move h fr fc tr tc ≡ some real
    → real.1.chain_continues ≡ true
    → (1 ≤ length real.1.captured) × (real.0.current_player ≡ h.current_player)
chain_goes_on h fr fc tr tc real e =
    let plays = make_move-Plays h fr fc tr tc real e in
    subst
      (λ z.
        z.1.chain_continues ≡ true
        → (1 ≤ length z.1.captured) × (z.0.current_player ≡ h.current_player))
      (sym plays.result) (play_goes_on h plays.piece plays.move)

pub branch-ends :
    (extend : Game → List Hop → List Taken → List FullMove) (hops : List Hop)
    (captured : List Taken) (m : Move) (o : Option (Game × MoveResult))
    (after real : Game × MoveResult)
    → o ≡ some after
    → SamePlay after real
    → real.1.chain_continues ≡ false
    → IsListed (branch extend hops captured m o) (hops ++ hop_of m ∷ []) real.0
branch-ends extend hops captured m o after real e s f =
    let last = finish_move hops (hop_of m) captured after.1.promoted after.0 in
    record {
      turn = last;
      listed =
          subst (λ z. last ∈ branch extend hops captured m z) (sym e)
            (rw (sym s.chain ∙ f) (inl refl));
      all_hops = finish_move-hops hops (hop_of m) captured after.1.promoted after.0;
      board = finish_move-board hops (hop_of m) captured after.1.promoted after.0 ∙ sym s.board;
      side = finish_move-turn hops (hop_of m) captured after.1.promoted after.0 ∙ sym s.turn;
    }

pub branch-goes_on :
    (extend : Game → List Hop → List Taken → List FullMove) (hops hops' : List Hop)
    (captured : List Taken) (m : Move) (o : Option (Game × MoveResult))
    (after real : Game × MoveResult) (result : Game)
    → o ≡ some after
    → SamePlay after real
    → real.1.chain_continues ≡ true
    → IsListed (extend after.0 (hops ++ hop_of m ∷ []) captured) hops' result
    → IsListed (branch extend hops captured m o) hops' result
branch-goes_on extend hops hops' captured m o after real result e s t l = record {
  turn = l.turn;
  listed =
      subst (λ z. l.turn ∈ branch extend hops captured m z) (sym e) (rw (sym s.chain ∙ t) l.listed);
  all_hops = l.all_hops;
  board = l.board;
  side = l.side;
}

-- A hop of the engine that the search makes too: its branch is among the turns.
pub from_branch :
    (extend : Game → List Hop → List Taken → List FullMove) (g : Game) (hops hops' : List Hop)
    (captured : List Taken) (m : Move) (result : Game)
    → m ∈ all_valid_moves g g.current_player
    → IsListed
        (branch extend hops
          (captured ++ map (describe_square g.board) m.captured)
          m
          (search_move (search_clone g) m.from_row m.from_col m.to_row m.to_col))
        hops'
        result
    → IsListed
        (extend_from extend g hops captured (all_valid_moves g g.current_player))
        hops'
        result
from_branch extend g hops hops' captured m result i l = record {
  turn = l.turn;
  listed =
      mem-extend_from extend g hops captured (all_valid_moves g g.current_player) m l.turn i
        l.listed;
  all_hops = l.all_hops;
  board = l.board;
  side = l.side;
}
