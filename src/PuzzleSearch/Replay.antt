-- ===== src/PuzzleSearch/Replay.antt =====
-- The turns that the search lists can be played on the game itself.
use purecheckers.Base.{
  ℕ, zero, suc, ◌≡◌, refl, ap, sym, subst, ◌∙◌, inl, inr, Bool, true, false, not, if◌then◌else◌,
  Bool-cases, Option, none, some, List, [], ◌∷◌, ◌++◌, ◌∈◌, append-mem, map, arith, is_empty,
  is_some, append_assoc,
}
use purecheckers.Board.{Piece}
use purecheckers.Moves.{Move}
use purecheckers.Game.{Game, MoveResult, all_valid_moves, play, make_move}
use purecheckers.Puzzle.{Hop, next_game, and_then, play_hops, move_hops}
use purecheckers.PuzzleSearch.Position.{search_clone}
use purecheckers.PuzzleSearch.Turns.{
  Taken, FullMove, hop_of, describe_square, finish_move, search_play, search_move, branch,
  extend_from, extend_chain, full_moves, serialize_move, apply_full_move,
}
use purecheckers.PuzzleSearch.Spot.{
  result_or, found, played_by, make_move-found, search_move-found, SameSpot, SameSpot-found,
  SamePlay, play-SamePlay, clone-SameSpot, finish_move-hops, finish_move-board, finish_move-turn,
}

-- The move of the real engine for one of the search.
pub record Follows (h : Game) (fr fc tr tc : ℕ) (after : Game × MoveResult) : Type 0 where
  pub real : Game × MoveResult
  pub made : make_move h fr fc tr tc ≡ some real
  pub same : SamePlay after real

played-Follows :
    (g h : Game) (fr fc tr tc : ℕ) (after : Game × MoveResult) (o : Option (Move × Piece))
    → SameSpot g h
    → found h fr fc tr tc ≡ o
    → played_by (search_play g) o ≡ some after
    → Follows h fr fc tr tc after
played-Follows g h fr fc tr tc after none s f e = absurd (ground (arith, ap is_some e))
played-Follows g h fr fc tr tc after (some (m, p)) s f e = record {
  real = play h p m;
  made = make_move-found h fr fc tr tc ∙ ap (played_by (play h)) f;
  same = subst (λ z. SamePlay z (play h p m)) (ap (result_or after) e) (play-SamePlay g h p m s);
}

search_move-Follows :
    (g h : Game) (fr fc tr tc : ℕ) (after : Game × MoveResult)
    → SameSpot g h
    → search_move g fr fc tr tc ≡ some after
    → Follows h fr fc tr tc after
search_move-Follows g h fr fc tr tc after s e =
    played-Follows g h fr fc tr tc after (found h fr fc tr tc) s refl (
      ap (played_by (search_play g)) (SameSpot-found g h fr fc tr tc s)
      ∙ sym (search_move-found g fr fc tr tc)
      ∙ e)

-- The rest of a turn `x`, after the hops `hops`, as it is played on the game itself.
pub record Replays (h : Game) (hops : List Hop) (x : FullMove) : Type 0 where
  pub next : Hop
  pub rest : List Hop
  pub all_hops : x.hops ≡ hops ++ next ∷ rest
  pub result : Game
  pub plays : play_hops h (next ∷ rest) ≡ some result
  pub board : result.board ≡ x.after.board
  pub turn : result.current_player ≡ x.after.current_player

next_game-last :
    (after : Game × MoveResult) (last : Bool)
    → after.1.chain_continues ≡ not last
    → next_game (some after) last ≡ some after.0
unfolding next_game
next_game-last after true c = rw c refl
next_game-last after false c = rw c refl

hop_plays :
    (h : Game) (m : Move) (real : Game × MoveResult) (rest : List Hop)
    → make_move h m.from_row m.from_col m.to_row m.to_col ≡ some real
    → real.1.chain_continues ≡ not (is_empty rest)
    → play_hops h (hop_of m ∷ rest) ≡ play_hops real.0 rest
unfolding play_hops
hop_plays h m real rest e c =
    ap (λ z. and_then (next_game z (is_empty rest)) none (λ after. play_hops after rest)) e
    ∙ ap (λ z. and_then z none (λ after. play_hops after rest))
        (next_game-last real (is_empty rest) c)

only : (x y : FullMove) → x ∈ y ∷ [] → x ≡ y
only x y (inl e) = e
only x y (inr k) = absurd k

pub going :
    (x : FullMove) (over : Bool) (xs : List FullMove) → x ∈ (if over then [] else xs) → x ∈ xs
going x true xs k = absurd k
going x false xs k = k

-- One listed move, where the chain that it continues is replayed by `deeper`.
branch-Replays :
    (extend : Game → List Hop → List Taken → List FullMove) (h : Game) (hops : List Hop)
    (captured : List Taken) (m : Move) (o : Option (Game × MoveResult)) (x : FullMove)
    → ((after : Game × MoveResult)
        → o ≡ some after
        → Follows h m.from_row m.from_col m.to_row m.to_col after)
    → ((g' h' : Game) (hs : List Hop) (cs : List Taken)
        → SameSpot g' h'
        → x ∈ extend g' hs cs
        → Replays h' hs x)
    → x ∈ branch extend hops captured m o
    → Replays h hops x
unfolding play_hops
branch-Replays extend h hops captured m none x f deeper k = absurd k
branch-Replays extend h hops captured m (some after) x f deeper k =
    let r = f after refl in
    elim (Bool-cases after.1.chain_continues) [
      | inl t ↦
          let inner : x ∈ extend after.0 (hops ++ hop_of m ∷ []) captured = rw t at k in
          let d =
            deeper after.0 r.real.0 (hops ++ hop_of m ∷ []) captured (r.same.goes_on t) inner in
          record {
            next = hop_of m;
            rest = d.next ∷ d.rest;
            all_hops = d.all_hops ∙ append_assoc hops (hop_of m ∷ []) (d.next ∷ d.rest);
            result = d.result;
            plays = hop_plays h m r.real (d.next ∷ d.rest) r.made (r.same.chain ∙ t) ∙ d.plays;
            board = d.board;
            turn = d.turn;
          }
      | inr e ↦
          let here : x ∈ finish_move hops (hop_of m) captured after.1.promoted after.0 ∷ [] =
            rw e at k in
          let q = only x (finish_move hops (hop_of m) captured after.1.promoted after.0) here in
          record {
            next = hop_of m;
            rest = [];
            all_hops =
                ap (λ z. z.hops) q
                ∙ finish_move-hops hops (hop_of m) captured after.1.promoted after.0;
            result = r.real.0;
            plays = hop_plays h m r.real [] r.made (r.same.chain ∙ e);
            board =
                r.same.board
                ∙ sym (
                    ap (λ z. z.after.board) q
                    ∙ finish_move-board hops (hop_of m) captured after.1.promoted after.0);
            turn =
                r.same.turn
                ∙ sym (
                    ap (λ z. z.after.current_player) q
                    ∙ finish_move-turn hops (hop_of m) captured after.1.promoted after.0);
          }
    ]

extend_from-Replays :
    (extend : Game → List Hop → List Taken → List FullMove) (g h : Game) (hops : List Hop)
    (captured : List Taken) (ms : List Move) (x : FullMove)
    → SameSpot g h
    → ((g' h' : Game) (hs : List Hop) (cs : List Taken)
        → SameSpot g' h'
        → x ∈ extend g' hs cs
        → Replays h' hs x)
    → x ∈ extend_from extend g hops captured ms
    → Replays h hops x
unfolding extend_from
extend_from-Replays extend g h hops captured [] x s deeper k = absurd k
extend_from-Replays extend g h hops captured (m ∷ ms) x s deeper k =
    let o = search_move (search_clone g) m.from_row m.from_col m.to_row m.to_col in
    let caps = captured ++ map (describe_square g.board) m.captured in
    elim (append-mem x (branch extend hops caps m o) (extend_from extend g hops captured ms) k) [
      | inl b ↦
          branch-Replays extend h hops caps m o x
            (λ after e.
              search_move-Follows (search_clone g) h m.from_row m.from_col m.to_row m.to_col after
                (clone-SameSpot g h s) e)
            deeper b
      | inr b ↦ extend_from-Replays extend g h hops captured ms x s deeper b
    ]

extend_chain-Replays :
    (fuel : ℕ) (g h : Game) (hops : List Hop) (captured : List Taken) (x : FullMove)
    → SameSpot g h
    → x ∈ extend_chain fuel g hops captured
    → Replays h hops x
unfolding extend_chain
extend_chain-Replays zero g h hops captured x s k = absurd k
extend_chain-Replays (suc fuel) g h hops captured x s k =
    extend_from-Replays (extend_chain fuel) g h hops captured (all_valid_moves g g.current_player) x
      s (λ g' h' hs cs q i. extend_chain-Replays fuel g' h' hs cs x q i) k

-- The game itself plays the stored turn, and comes to the board and the side of the turn's position.
pub record IsReplayed (g : Game) (x : FullMove) : Type 0 where
  pub result : Game
  pub applied : apply_full_move g (serialize_move x) ≡ some result
  pub board : result.board ≡ x.after.board
  pub turn : result.current_player ≡ x.after.current_player

-- Each turn that fullMoves lists, applyFullMove plays on the game itself, with its histories, clocks and
-- draw rules, hop by hop, and comes to the board and the side to move that the turn's position has.
pub full_moves-IsReplayed : (g : Game) (x : FullMove) → x ∈ full_moves g → IsReplayed g x
unfolding full_moves apply_full_move serialize_move move_hops
full_moves-IsReplayed g x k =
    let same : SameSpot g g = record { board = refl; turn = refl; chain = refl; over = refl } in
    let r =
      extend_chain-Replays 65 g g [] [] x same (going x g.game_over (extend_chain 65 g [] []) k) in
    record {
      result = r.result;
      applied = ap (play_hops g) r.all_hops ∙ r.plays;
      board = r.board;
      turn = r.turn;
    }
