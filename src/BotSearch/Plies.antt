-- ===== src/BotSearch/Plies.antt =====
-- What a ply of the bots' search does to the plies that are left and to the pieces.
use purecheckers.Base.{
  ℕ, ◌+◌, ◌-◌, ◌<◌, ◌≤◌, leb, ◌≡◌, refl, ap, sym, subst, ◌∙◌, ◌⊎◌, inl, inr, true, false, not, ◌&&◌,
  if◌then◌else◌, Bool-cases, Option, none, some, List, ◌∈◌, arith, is_empty, is_some, length,
}
use purecheckers.Board.{Color, red, black, opponent, same_color, Board, Piece}
use purecheckers.Board.Cells.{IsBoard}
use purecheckers.Moves.{Move}
use purecheckers.Game.{
  Game, MoveResult, all_valid_moves, count_pieces, play, make_move, continues, moved_board,
}
use purecheckers.Game.Count.{count_pieces_le}
use purecheckers.Game.Legal.{all_valid_moves_iff}
use purecheckers.Game.Turns.{make_move-Plays, IsLegal-make_move}
use purecheckers.Game.Material.{make_move-cells, make_move-material}
use purecheckers.Bot.{apply_move}
use purecheckers.Bot.Chain.{ended_turn, end_turn-chain, some_captured}
use purecheckers.BotSearch.{left_after}

-- A ply passes the turn, or takes a piece and goes on.
data Ply (g h : Game) (captured : List (ℕ × ℕ)) : Type 0 where
  passes : h.current_player ≡ opponent g.current_player → h.chain_piece ≡ none → Ply g h captured
  takes : h.current_player ≡ g.current_player → 1 ≤ length captured → Ply g h captured

play-Ply : (g : Game) (p : Piece) (m : Move) → Ply g (play g p m).0 (play g p m).1.captured
unfolding play
play-Ply g p m =
    let moved = record g { board = moved_board g.board p m } in
    let captured = not (is_empty m.captured) in
    elim (Bool-cases (continues (moved_board g.board p m) p m)) [
      | inl e ↦ takes (rw e refl) (some_captured (moved_board g.board p m) p m e)
      | inr e ↦ passes (rw e (ended_turn moved captured)) (rw e (end_turn-chain moved captured))
    ]

pub pieces : Board → ℕ
pieces b = count_pieces b red + count_pieces b black

pieces_of : (b : Board) (c : Color) → count_pieces b c + count_pieces b (opponent c) ≡ pieces b
unfolding pieces
pieces_of b red = refl
pieces_of b black = omega arith

pub pieces_le : (b : Board) → pieces b ≤ 128
unfolding pieces
pieces_le b = omega (arith, count_pieces_le b red, count_pieces_le b black)

same_color-opponent : (c : Color) → same_color (opponent c) c ≡ false
same_color-opponent red = refl
same_color-opponent black = refl

same_color_self : (c : Color) → same_color c c ≡ true
same_color_self red = refl
same_color_self black = refl

-- A game of the search, with `left - 1` turns left and fewer than `fuel` plies in all.
pub record IsFueled (fuel left : ℕ) (g : Game) : Type 0 where
  pub board : IsBoard g.board
  pub turns : (g.chain_piece ≡ none) ⊎ (1 ≤ left)
  pub plies : left + pieces g.board < fuel

apply_move-made :
    (g : Game) (m : Move) (after : Game × MoveResult)
    → make_move g m.from_row m.from_col m.to_row m.to_col ≡ some after
    → apply_move g m ≡ after.0
unfolding apply_move
apply_move-made g m after e = rw e refl

left_after-passes :
    (g h : Game) (left : ℕ)
    → h.current_player ≡ opponent g.current_player
    → left_after g.current_player h left ≡ left - 1
left_after-passes g h left e =
    ap (λ z. if z then left else left - 1)
      (ap (λ z. same_color z g.current_player) e ∙ same_color-opponent g.current_player)

left_after-takes :
    (g h : Game) (left : ℕ)
    → h.current_player ≡ g.current_player
    → left_after g.current_player h left ≡ left
left_after-takes g h left e =
    ap (λ z. if z then left else left - 1)
      (ap (λ z. same_color z g.current_player) e ∙ same_color_self g.current_player)

Ply-IsFueled :
    (fuel left : ℕ) (g h : Game) (captured : List (ℕ × ℕ))
    → IsBoard h.board
    → 1 ≤ left
    → left + pieces g.board ≤ fuel
    → pieces h.board + length captured ≡ pieces g.board
    → Ply g h captured
    → IsFueled fuel (left_after g.current_player h left) h
Ply-IsFueled fuel left g h captured b l f p (passes turn chain) =
    subst (λ z. IsFueled fuel z h) (sym (left_after-passes g h left turn))
      (record { board = b; turns = inl chain; plies = omega arith })
Ply-IsFueled fuel left g h captured b l f p (takes turn took) =
    subst (λ z. IsFueled fuel z h) (sym (left_after-takes g h left turn))
      (record { board = b; turns = inr l; plies = omega arith })

-- A legal move leaves a game with one ply less.
pub apply_move-IsFueled :
    (fuel left : ℕ) (g : Game) (m : Move)
    → IsBoard g.board
    → g.game_over ≡ false
    → 1 ≤ left
    → left + pieces g.board ≤ fuel
    → m ∈ all_valid_moves g g.current_player
    → IsFueled fuel (left_after g.current_player (apply_move g m) left) (apply_move g m)
apply_move-IsFueled fuel left g m b o l f i =
    let (after, k) = IsLegal-make_move g m o ((all_valid_moves_iff g m).0 i) in
    let plays = make_move-Plays g m.from_row m.from_col m.to_row m.to_col after k in
    let material = make_move-material g m.from_row m.from_col m.to_row m.to_col after b k in
    let ply : Ply g after.0 after.1.captured =
      subst (λ z. Ply g z.0 z.1.captured) (sym plays.result) (play-Ply g plays.piece plays.move) in
    let fewer : pieces after.0.board + length after.1.captured ≡ pieces g.board = omega (
      arith,
      material.0,
      material.1,
      pieces_of after.0.board g.current_player,
      pieces_of g.board g.current_player,
    ) in
    subst (λ z. IsFueled fuel (left_after g.current_player z left) z)
      (sym (apply_move-made g m after k))
      (Ply-IsFueled fuel left g after.0 after.1.captured
        (make_move-cells g m.from_row m.from_col m.to_row m.to_col after b k).2 l f fewer ply)

-- A search that does not stop at a game with no turn left goes on with one at least.
pub turn_left :
    (fuel left : ℕ) (g : Game)
    → IsFueled fuel left g
    → (leb left 1 && not (is_some g.chain_piece)) ≡ false
    → 1 ≤ left
turn_left fuel left g f h = elim f.turns [
  | inl e ↦
      let unchained : Option (ℕ × ℕ) = none in
      let q : (leb left 1 && not (is_some unchained)) ≡ false =
        ap (λ z. leb left 1 && not (is_some z)) (sym e) ∙ h in
      ground (arith, q)
  | inr l ↦ l
]
