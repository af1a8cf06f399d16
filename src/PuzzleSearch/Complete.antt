-- ===== src/PuzzleSearch/Complete.antt =====
-- The search lists every turn that the game itself can play.
use purecheckers.Base.{
  ℕ, zero, suc, ◌<◌, ◌≡◌, refl, ap, sym, subst, ◌∙◌, inl, inr, Bool, true, false, not,
  if◌then◌else◌, Option-cases, Option, none, some, List, [], ◌∷◌, ◌++◌, map, arith, is_empty,
  is_some, append_assoc,
}
use purecheckers.Board.{opponent}
use purecheckers.Board.Cells.{IsBoard}
use purecheckers.Game.{Game, MoveResult, count_pieces, make_move}
use purecheckers.Game.Turns.{make_move-Plays}
use purecheckers.Game.Count.{count_pieces_le}
use purecheckers.Game.Material.{make_move-cells, make_move-material}
use purecheckers.Puzzle.{Hop, next_game, and_then, play_hops}
use purecheckers.PuzzleSearch.Turns.{Taken, hop_of, describe_square, extend_chain, full_moves}
use purecheckers.PuzzleSearch.Spot.{SameSpot}
use purecheckers.PuzzleSearch.Hops.{
  IsListed, made, chain_goes_on, branch-ends, branch-goes_on, from_branch,
}

-- The first hop of a turn that the engine plays.
record Starts (h : Game) (hop : Hop) (rest : List Hop) (result : Game) : Type 0 where
  real : Game × MoveResult
  makes : make_move h hop.from_row hop.from_col hop.to_row hop.to_col ≡ some real
  flag : real.1.chain_continues ≡ not (is_empty rest)
  plays : play_hops real.0 rest ≡ some result

abbrev game_or : Game → Option Game → Game
game_or d none = d
game_or d (some a) = a

some_eq : (a b : Game) → some a ≡ some b → a ≡ b
some_eq a b e = ap (game_or a) e

split_flag :
    (goes last : Bool) (a b : Game)
    → (if goes then (if last then none else some a) else (if last then some a else none)) ≡ some b
    → (goes ≡ not last) × (a ≡ b)
split_flag true true a b e = absurd (ground (arith, ap is_some e))
split_flag true false a b e = (refl, some_eq a b e)
split_flag false true a b e = (refl, some_eq a b e)
split_flag false false a b e = absurd (ground (arith, ap is_some e))

next_game-flag :
    (real : Game × MoveResult) (last : Bool) (g : Game)
    → next_game (some real) last ≡ some g
    → (real.1.chain_continues ≡ not last) × (real.0 ≡ g)
unfolding next_game
next_game-flag real last g e = split_flag real.1.chain_continues last real.0 g e

started :
    (h : Game) (hop : Hop) (rest : List Hop) (result : Game) (o : Option (Game × MoveResult))
    → make_move h hop.from_row hop.from_col hop.to_row hop.to_col ≡ o
    → and_then (next_game o (is_empty rest)) none (λ after. play_hops after rest) ≡ some result
    → Starts h hop rest result
unfolding next_game
started h hop rest result none e k = absurd (ground (arith, ap is_some k))
started h hop rest result (some real) e k =
    elim (Option-cases (next_game (some real) (is_empty rest))) [
      | inl n ↦
          let q = ap (λ z. and_then z none (λ after. play_hops after rest)) n in
          absurd (ground (arith, ap is_some (sym q ∙ k)))
      | inr (g, n) ↦
          let (flag, same) = next_game-flag real (is_empty rest) g n in
          let q = ap (λ z. and_then z none (λ after. play_hops after rest)) n in
          record {
            real = real;
            makes = e;
            flag = flag;
            plays = ap (λ z. play_hops z rest) same ∙ sym q ∙ k;
          }
    ]

starts :
    (h : Game) (hop : Hop) (rest : List Hop) (result : Game)
    → play_hops h (hop ∷ rest) ≡ some result
    → Starts h hop rest result
unfolding play_hops
starts h hop rest result e =
    started h hop rest result (make_move h hop.from_row hop.from_col hop.to_row hop.to_col) refl e

extend_chain-IsListed :
    (fuel : ℕ) (g h : Game) (hops : List Hop) (captured : List Taken) (hop : Hop) (rest : List Hop)
    (result : Game)
    → SameSpot g h
    → IsBoard h.board
    → count_pieces h.board (opponent h.current_player) < fuel
    → play_hops h (hop ∷ rest) ≡ some result
    → IsListed (extend_chain fuel g hops captured) (hops ++ hop ∷ rest) result
unfolding extend_chain play_hops
extend_chain-IsListed zero g h hops captured hop rest result s b n e = absurd (omega arith)
extend_chain-IsListed (suc fuel) g h hops captured hop [] result s b n e =
    let st = starts h hop [] result e in
    let k = made g h hop st.real s st.makes in
    let m = k.move in
    let caps = captured ++ map (describe_square g.board) m.captured in
    let l =
      branch-ends (extend_chain fuel) hops caps m _ k.mirrors.after st.real k.mirrors.made
        k.mirrors.same st.flag in
    let whole =
      from_branch (extend_chain fuel) g hops (hops ++ hop_of m ∷ []) captured m st.real.0 k.listed
        l in
    subst (λ z. IsListed (extend_chain (suc fuel) g hops captured) (hops ++ z ∷ []) result) k.is_hop
      (subst (λ z. IsListed (extend_chain (suc fuel) g hops captured) (hops ++ hop_of m ∷ []) z)
        (some_eq st.real.0 result st.plays) whole)
extend_chain-IsListed (suc fuel) g h hops captured hop (next ∷ rest) result s b n e =
    let st = starts h hop (next ∷ rest) result e in
    let k = made g h hop st.real s st.makes in
    let m = k.move in
    let caps = captured ++ map (describe_square g.board) m.captured in
    let (took, turn) =
      chain_goes_on h hop.from_row hop.from_col hop.to_row hop.to_col st.real st.makes st.flag in
    let material =
      make_move-material h hop.from_row hop.from_col hop.to_row hop.to_col st.real b st.makes in
    let board =
      (make_move-cells h hop.from_row hop.from_col hop.to_row hop.to_col st.real b st.makes).2 in
    let fewer : count_pieces st.real.0.board (opponent st.real.0.current_player) < fuel =
      rw turn (omega (arith, material.1)) in
    let deeper =
      extend_chain-IsListed fuel k.mirrors.after.0 st.real.0 (hops ++ hop_of m ∷ []) caps next rest
        result (k.mirrors.same.goes_on (sym k.mirrors.same.chain ∙ st.flag)) board fewer st.plays in
    let l =
      branch-goes_on (extend_chain fuel) hops ((hops ++ hop_of m ∷ []) ++ next ∷ rest) caps m _
        k.mirrors.after st.real result k.mirrors.made k.mirrors.same st.flag deeper in
    let whole =
      from_branch (extend_chain fuel) g hops ((hops ++ hop_of m ∷ []) ++ next ∷ rest) captured m
        result k.listed l in
    subst (λ z. IsListed (extend_chain (suc fuel) g hops captured) (hops ++ z ∷ next ∷ rest) result)
      k.is_hop
      (subst (λ z. IsListed (extend_chain (suc fuel) g hops captured) z result)
        (append_assoc hops (hop_of m ∷ []) (next ∷ rest)) whole)

-- On a whole board, whatever hops the game itself plays as one turn, which goes on until its chain ends,
-- fullMoves lists a turn of these hops, and its position has the board and the side to move that the game
-- comes to. So no turn is lost, and the fuel is enough.
pub full_moves-IsListed :
    (g : Game) (hop : Hop) (rest : List Hop) (result : Game)
    → IsBoard g.board
    → play_hops g (hop ∷ rest) ≡ some result
    → IsListed (full_moves g) (hop ∷ rest) result
unfolding full_moves
full_moves-IsListed g hop rest result b e =
    let same : SameSpot g g = record { board = refl; turn = refl; chain = refl; over = refl } in
    let st = starts g hop rest result e in
    let ongoing =
      (make_move-Plays g hop.from_row hop.from_col hop.to_row hop.to_col st.real
        st.makes).ongoing in
    subst (λ z. IsListed (if z then [] else extend_chain 65 g [] []) (hop ∷ rest) result)
      (sym ongoing)
      (extend_chain-IsListed 65 g g [] [] hop rest result same b
        (omega (arith, count_pieces_le g.board (opponent g.current_player))) e)
