-- ===== src/BotSearch/Plain.antt =====
-- The search of the bots without a window and without a budget.
use purecheckers.Base.{ℕ, zero, suc, leb, not, ◌&&◌, if◌then◌else◌, is_empty, is_some}
use purecheckers.Board.{Color, same_color}
use purecheckers.Game.{Game, all_valid_moves}
use purecheckers.Bot.{evaluate, apply_move}
use purecheckers.Bot.Search.{Score, neg_inf, finite, pos_inf, leb_score, geb_score}
use purecheckers.Bot.Pruning.{unpruned}
use purecheckers.BotSearch.{over_score, win_for, left_after}

unfoldable pub plain_search : Color → ℕ → ℕ → Game → Score
plain_search color zero left g = finite (evaluate g.board color)
plain_search color (suc fuel) left g =
    if g.game_over
    then over_score g.winner color left
    else if is_empty (all_valid_moves g g.current_player)
    then win_for (not (same_color g.current_player color)) left
    else if leb left 1 && not (is_some g.chain_piece)
    then finite (evaluate g.board color)
    else if same_color g.current_player color
    then unpruned leb_score
        (λ m.
          plain_search color fuel (left_after g.current_player (apply_move g m) left)
            (apply_move g m))
        (all_valid_moves g g.current_player) neg_inf
    else unpruned geb_score
        (λ m.
          plain_search color fuel (left_after g.current_player (apply_move g m) left)
            (apply_move g m))
        (all_valid_moves g g.current_player) pos_inf
