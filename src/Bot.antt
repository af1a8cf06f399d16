-- ===== src/Bot.antt =====
-- The class ColonelBot of shared/game.js: the evaluation of a position in units of 1/20, the end of
-- a capture chain, and minimax with alpha-beta pruning.
pub mod Chain
pub mod Pruning
pub mod Search
pub mod Ended
pub mod Value
pub mod Choice
pub mod Draw
use package.purecheckers.Base.{
  ℕ, zero, suc, ◌+◌, ◌-◌, ◌*◌, Bool, true, false, not, ◌&&◌, leb, if◌then◌else◌, Option, none, some,
  List, [], ◌∷◌,
}
use package.purecheckers.Base.Int.{ℤ, pos, negsuc, ◌+ℤ◌, ◌-ℤ◌, leb_ℤ}
use package.purecheckers.Board.{
  Color, red, black, same_color, Piece, Board, Slot, outside, empty, occupied, at, squares,
}
use package.purecheckers.Moves.{Move}
use package.purecheckers.Game.{Game, MoveResult, all_valid_moves, make_move}

abbrev pub evaluation_scale : ℕ
evaluation_scale = 20

-- What one piece adds: its value, how far a man has come, and the four middle columns.
unfoldable pub piece_value : Piece → ℕ → ℕ → ℕ
piece_value p r c =
    let val = if p.queen then 5 * evaluation_scale else evaluation_scale in
    let pos_bonus = if p.queen then 0 else if same_color p.color red then (7 - r) * 2 else r * 2 in
    let center_bonus : ℕ = if leb 2 c && leb c 5 then 1 else 0 in val + pos_bonus + center_bonus

unfoldable pub add_square : Board → Color → ℤ → ℕ × ℕ → ℤ
add_square b color score (r, c) = elim (at b r c) [
  | outside ↦ score
  | empty ↦ score
  | occupied p ↦
      if same_color p.color color
      then score +ℤ pos (piece_value p r c)
      else score -ℤ pos (piece_value p r c)
]

unfoldable pub evaluate_from : Board → Color → ℤ → List (ℕ × ℕ) → ℤ
evaluate_from b color score [] = score
evaluate_from b color score (s ∷ rest) = evaluate_from b color (add_square b color score s) rest

-- `evaluate`, before its division by the scale.
unfoldable pub evaluate : Board → Color → ℤ
evaluate b color = evaluate_from b color (pos 0) squares

-- `sim.makeMove(...)`, on a game that the caller has cloned; a refused move changes nothing.
abbrev pub played : Game → Option (Game × MoveResult) → Game
played g none = g
played g (some after) = after.0

unfoldable pub apply_move : Game → Move → Game
apply_move g m = played g (make_move g m.from_row m.from_col m.to_row m.to_col)

-- `while (game.chainPiece)`, with one round of fuel for each step of the chain; `none` where the loop has not
-- ended by then. On a game that is over within a chain a move is listed and none is taken: it never ends.
unfoldable pub finish_chain : ℕ → Game → Option Game
finish_chain zero g = elim g.chain_piece [ none ↦ some g | some s ↦ none ]
finish_chain (suc fuel) g = elim g.chain_piece [
  | none ↦ some g
  | some s ↦ elim (all_valid_moves g g.current_player) [
    | [] ↦ some g
    | m ∷ ms ↦ finish_chain fuel (apply_move g m)
  ]
]
