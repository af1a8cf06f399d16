-- ===== src/Bot/Chain.antt =====
-- `_finishChain` ends: each round of its loop captures a piece.
use purecheckers.Base.{
  list_cases, ℕ, zero, suc, ◌<◌, ◌≤◌, ◌≡◌, refl, sym, subst, ◌∙◌, inl, inr, Bool, true, false, not,
  Bool-cases, Option, Option-cases, none, some, is_some, List, length, arith, is_empty,
}
use purecheckers.Board.{Board, Piece, opponent}
use purecheckers.Moves.{Move}
use purecheckers.Game.{
  Game, MoveResult, all_valid_moves, make_move, count_pieces, play, continues, moved_board,
  end_turn, pass_turn, check_game_over, check_forced_draw,
}
use purecheckers.Game.Legal.{all_valid_moves_iff}
use purecheckers.Game.Turns.{make_move-Plays, IsLegal-make_move}
use purecheckers.Game.Material.{make_move-material}
use purecheckers.Game.Invariant.{Inv}
use purecheckers.Game.Progress.{make_move-Inv}
use purecheckers.Bot.{apply_move, finish_chain}

-- A played move ends the chain, or captures and leaves the turn where it was.
pub data Round (g h : Game) (captured : List (ℕ × ℕ)) : Type 0 where
  done : h.chain_piece ≡ none → Round g h captured
  more :
      h.game_over ≡ g.game_over
      → h.current_player ≡ g.current_player
      → 1 ≤ length captured
      → Round g h captured

pub end_turn-chain : (g : Game) (captured : Bool) → (end_turn g captured).chain_piece ≡ none
unfolding end_turn check_game_over check_forced_draw pass_turn
end_turn-chain g captured = ground arith

pub ended_turn :
    (g : Game) (captured : Bool) → (end_turn g captured).current_player ≡ opponent g.current_player
unfolding end_turn check_game_over check_forced_draw pass_turn
ended_turn g captured = ground arith

pub some_captured :
    (b : Board) (p : Piece) (m : Move) → continues b p m ≡ true → 1 ≤ length m.captured
unfolding continues
some_captured b p m h = ground arith

play-Round : (g : Game) (p : Piece) (m : Move) → Round g (play g p m).0 (play g p m).1.captured
unfolding play
play-Round g p m = elim (Bool-cases (continues (moved_board g.board p m) p m)) [
  | inl e ↦ more (rw e) (rw e) (some_captured (moved_board g.board p m) p m e)
  | inr e ↦ done (
      ground (
        arith,
        end_turn-chain (record g { board = moved_board g.board p m }) (not (is_empty m.captured)),
      ))
]

pub make_move-Round :
    (g : Game) (fr fc tr tc : ℕ) (after : Game × MoveResult)
    → make_move g fr fc tr tc ≡ some after
    → Round g after.0 after.1.captured
make_move-Round g fr fc tr tc after e =
    let plays = make_move-Plays g fr fc tr tc after e in
    subst (λ z. Round g z.0 z.1.captured) (sym plays.result) (play-Round g plays.piece plays.move)

-- The loop has ended, with no chain left.
abbrev pub is_done : Option Game → Bool
is_done none = false
is_done (some h) = not (is_some h.chain_piece)

pub none-is_done :
    (fuel : ℕ) (g : Game) → g.chain_piece ≡ none → is_done (finish_chain fuel g) ≡ true
unfolding finish_chain
none-is_done zero g e = rw (e, finish_chain, e) refl
none-is_done (suc fuel) g e = rw (e, finish_chain, e) refl

-- With a round for each piece of the opponent, and one more, the loop ends and the chain is finished.
pub finish_chain-done :
    (fuel : ℕ) (g : Game)
    → Inv g
    → g.game_over ≡ false
    → count_pieces g.board (opponent g.current_player) < fuel
    → is_done (finish_chain fuel g) ≡ true
unfolding finish_chain apply_move
finish_chain-done zero g i o f = absurd (omega arith)
finish_chain-done (suc fuel) g i o f = elim (Option-cases g.chain_piece) [
  | inl e ↦ none-is_done (suc fuel) g e
  | inr (s, e) ↦ elim (list_cases (all_valid_moves g g.current_player)) [
    | inl n ↦ absurd (ground (arith, (i.live o).moves))
    | inr (m, ms, q) ↦
        let l = (all_valid_moves_iff g m).0 (rw q (inl refl)) in
        let (after, k) = IsLegal-make_move g m o l in
        let inv = make_move-Inv g m.from_row m.from_col m.to_row m.to_col after i k in
        let material =
          make_move-material g m.from_row m.from_col m.to_row m.to_col after i.board k in
        rw (e, finish_chain, q, k)
          (elim (make_move-Round g m.from_row m.from_col m.to_row m.to_col after k) [
            | done d ↦ none-is_done fuel after.0 d
            | more go same some_piece ↦
                finish_chain-done fuel after.0 inv (go ∙ o) (rw same (omega arith))
          ])
  ]
]
