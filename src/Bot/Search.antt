-- ===== src/Bot/Search.antt =====
-- The search of ColonelBot in shared/game.js: scores, minimax with alpha-beta pruning, and the moves
-- that chooseMove draws from.
use purecheckers.Base.{
  ℕ, zero, suc, Bool, true, false, not, ◌&&◌, if◌then◌else◌, Option, none, some, List, [], ◌∷◌,
  ◌++◌, all_of, is_some,
}
use purecheckers.Base.Int.{ℤ, leb_ℤ}
use purecheckers.Board.{Color}
use purecheckers.Moves.{Move}
use purecheckers.Game.{Game, all_valid_moves}
use purecheckers.Bot.{evaluate, apply_move, finish_chain}
use purecheckers.Bot.Pruning.{pruned, unpruned}

-- A number, `-Infinity` or `Infinity`.
pub data Score : Type 0 where
  neg_inf : Score
  finite : ℤ → Score
  pos_inf : Score

unfoldable pub leb_score : Score → Score → Bool
leb_score neg_inf b = true
leb_score (finite a) neg_inf = false
leb_score (finite a) (finite b) = leb_ℤ a b
leb_score (finite a) pos_inf = true
leb_score pos_inf neg_inf = false
leb_score pos_inf (finite b) = false
leb_score pos_inf pos_inf = true

unfoldable pub geb_score : Score → Score → Bool
geb_score a b = leb_score b a

-- The clone of the game after a move and the rest of its chain; a board has 64 squares. Where the loop of the
-- chain does not end there is no child, and the game before the loop stands for it.
abbrev pub chain_or : Game → Option Game → Game
chain_or g none = g
chain_or g (some h) = h

unfoldable pub child : Game → Move → Game
child g m = chain_or (apply_move g m) (finish_chain 65 (apply_move g m))

-- A position is evaluated when its game is over or has no move, and searched deeper otherwise.
unfoldable pub node : Bool → List Move → Score → (List Move → Score) → Score
node true moves here deeper = here
node false [] here deeper = here
node false (m ∷ ms) here deeper = deeper (m ∷ ms)

unfoldable pub minimax : ℕ → Color → Bool → Score → Score → Game → Score
minimax zero bot maximizing alpha beta g = finite (evaluate g.board bot)
minimax (suc d) bot true alpha beta g =
    node g.game_over (all_valid_moves g g.current_player) (finite (evaluate g.board bot)) (λ moves.
      pruned leb_score (λ a b m. minimax d bot false a b (child g m)) moves alpha beta neg_inf)
minimax (suc d) bot false alpha beta g =
    node g.game_over (all_valid_moves g g.current_player) (finite (evaluate g.board bot)) (λ moves.
      pruned geb_score (λ b a m. minimax d bot true a b (child g m)) moves beta alpha pos_inf)

-- Minimax that looks at every move.
unfoldable pub plain : ℕ → Color → Bool → Game → Score
plain zero bot maximizing g = finite (evaluate g.board bot)
plain (suc d) bot true g =
    node g.game_over (all_valid_moves g g.current_player) (finite (evaluate g.board bot))
      (λ moves. unpruned leb_score (λ m. plain d bot false (child g m)) moves neg_inf)
plain (suc d) bot false g =
    node g.game_over (all_valid_moves g g.current_player) (finite (evaluate g.board bot))
      (λ moves. unpruned geb_score (λ m. plain d bot true (child g m)) moves pos_inf)

-- The loop of `chooseMove`: the best score so far and the moves that have it.
unfoldable pub best_from : (Move → Score) → List Move → Score → List Move → List Move
best_from score [] best moves = moves
best_from score (m ∷ ms) best moves =
    let s = score m in
    let first = best_from score ms s (m ∷ []) in
    let also = best_from score ms best (moves ++ (m ∷ [])) in
    let passed = best_from score ms best moves in
    if not (leb_score s best)
    then first
    else if leb_score s best && leb_score best s
    then also
    else passed

-- The score that `chooseMove` gives a move, where `d` is the bot's depth less one.
unfoldable pub move_score : ℕ → Game → Move → Score
move_score d g m = minimax d g.current_player false neg_inf pos_inf (child g m)

unfoldable pub best_moves : ℕ → Game → List Move
best_moves d g = best_from (move_score d g) (all_valid_moves g g.current_player) neg_inf []

-- The loop of `_finishChain` ends after each listed move.
unfoldable pub chains_end : Game → Bool
chains_end g =
    all_of (λ m. is_some (finish_chain 65 (apply_move g m))) (all_valid_moves g g.current_player)

-- `draw` stands for the random choice from the best moves. `none` where the function does not return, and
-- `some none` where it returns null.
unfoldable pub choose_move : (List Move → Option Move) → ℕ → Game → Option (Option Move)
choose_move draw d g = elim (all_valid_moves g g.current_player) [
  | [] ↦ some none
  | m ∷ [] ↦ some (some m)
  | m ∷ n ∷ ms ↦ if chains_end g then some (draw (best_moves d g)) else none
]
