-- ===== src/BotSearch.antt =====
-- The search that the bots play by: shared/botSearch.js. Scores are in units of 1/20. A search that its
-- budget or the clock stops is `none`.
pub mod Plain
pub mod Value
pub mod Exact
pub mod Plies
pub mod Stops
pub mod Choice
pub mod Grade
use package.purecheckers.Base.{
  ℕ, zero, suc, ◌+◌, ◌-◌, ◌*◌, leb, ltb, ◌==◌, Bool, true, false, not, ◌&&◌, ◌||◌, if◌then◌else◌,
  Option, none, some, List, [], ◌∷◌, ◌++◌, map, filter, is_empty, is_some,
}
use package.purecheckers.Base.Int.{ℤ, pos, sub_ℕ, ◌-ℤ◌, leb_ℤ}
use package.purecheckers.Board.{Color, Board, same_color}
use package.purecheckers.Moves.{Move}
use package.purecheckers.Game.{Game, DrawReason, all_valid_moves, new_game}
use package.purecheckers.Bot.{evaluate, apply_move}
use package.purecheckers.Bot.Search.{Score, neg_inf, finite, pos_inf, leb_score, geb_score}
use package.purecheckers.Bot.Pruning.{better}

-- What a worker is sent of a game.
pub record SearchState : Type 0 where
  pub board : Board
  pub current_player : Color
  pub chain_piece : Option (ℕ × ℕ)
  pub game_over : Bool
  pub winner : Option Color
  pub draw_reason : Option DrawReason
  pub position_history : List (List ℕ)
  pub moves_without_capture : ℕ

unfoldable pub search_state : Game → SearchState
search_state g = record {
  board = g.board;
  current_player = g.current_player;
  chain_piece = g.chain_piece;
  game_over = g.game_over;
  winner = g.winner;
  draw_reason = g.draw_reason;
  position_history = g.position_history;
  moves_without_capture = g.moves_without_capture;
}

unfoldable pub restore_search_state : SearchState → Game
restore_search_state s = record (new_game 0) {
  board = s.board;
  current_player = s.current_player;
  chain_piece = s.chain_piece;
  game_over = s.game_over;
  winner = s.winner;
  draw_reason = s.draw_reason;
  position_history = s.position_history;
  moves_without_capture = s.moves_without_capture;
  move_history = [];
}

-- `10000 + remaining`, where `left` is `remaining + 1`.
abbrev pub bonus : ℕ → ℕ
bonus left = 20 * (9999 + left)

abbrev pub win_for : Bool → ℕ → Score
win_for wins left = if wins then finite (pos (bonus left)) else finite (sub_ℕ 0 (bonus left))

abbrev pub over_score : Option Color → Color → ℕ → Score
over_score none color left = finite (pos 0)
over_score (some c) color left = win_for (same_color c color) left

-- `Number(next.currentPlayer !== …)` taken off.
abbrev pub left_after : Color → Game → ℕ → ℕ
left_after mover next left = if same_color next.current_player mover then left else left - 1

-- The nodes so far, and the score if the search was not stopped.
abbrev pub Probe : Type 0
Probe = ℕ × Option Score

-- What the loop does with the value of a move, where `go` is the rest of the loop; the order is that of
-- the side to move, and so are the ends of the window.
unfoldable pub weigh_value :
    (Score → Score → Bool) → Score → Score → Score → (Score → Score → ℕ → Probe) → Probe → Probe
weigh_value order low high best go (nodes, none) = (nodes, none)
weigh_value order low high best go (nodes, some value) =
    let best' = better order best value in
    let low' = better order low best' in
    if order high low' then (nodes, some best') else go low' best' nodes

-- `for (const move of legal)`; the maximising side's order is that of the scores, the other's is the
-- opposite one.
unfoldable pub scan_legal :
    (Score → Score → Bool)
    → (Score → Score → ℕ → Move → Probe)
    → List Move
    → Score
    → Score
    → Score
    → ℕ
    → Probe
scan_legal order visit [] low high best nodes = (nodes, some best)
scan_legal order visit (m ∷ ms) low high best nodes =
    weigh_value order low high best (λ l b n. scan_legal order visit ms l high b n)
      (visit low high nodes m)

-- `late n` says whether the clock has passed the deadline at the node `n`.
module _ (node_budget : ℕ) (late : ℕ → Bool) (color : Color) where
  -- One round of fuel for each ply.
  unfoldable pub bot_search : ℕ → ℕ → Score → Score → ℕ → Game → Probe
  bot_search zero left alpha beta nodes g = (nodes, none)
  bot_search (suc fuel) left alpha beta nodes g =
      if ltb node_budget (nodes + 1) || late (nodes + 1)
      then (nodes + 1, none)
      else if g.game_over
      then (nodes + 1, some (over_score g.winner color left))
      else if is_empty (all_valid_moves g g.current_player)
      then (nodes + 1, some (win_for (not (same_color g.current_player color)) left))
      else if leb left 1 && not (is_some g.chain_piece)
      then (nodes + 1, some (finite (evaluate g.board color)))
      else if same_color g.current_player color
      then scan_legal leb_score
          (λ a b n m.
            bot_search fuel (left_after g.current_player (apply_move g m) left) a b n
              (apply_move g m))
          (all_valid_moves g g.current_player) alpha beta neg_inf (nodes + 1)
      else scan_legal geb_score
          (λ b a n m.
            bot_search fuel (left_after g.current_player (apply_move g m) left) a b n
              (apply_move g m))
          (all_valid_moves g g.current_player) beta alpha pos_inf (nodes + 1)

-- The budgets of a search; `late` stands for the clock.
pub record Limits : Type 0 where
  pub depth : ℕ
  pub node_budget : ℕ
  pub late : ℕ → Bool

-- Every ply passes the turn or takes a piece, and a side has 64 at most.
abbrev pub fuel_for : ℕ → ℕ
fuel_for left = left + 130

pub record BotScore : Type 0 where
  pub move : Move
  pub score : Score

-- The score that the pass of an iteration gives a move.
unfoldable pub root_search : Limits → ℕ → Game → ℕ → Move → Probe
root_search limits iteration g nodes m =
    let left = left_after g.current_player (apply_move g m) (iteration + 1) in
    bot_search limits.node_budget limits.late g.current_player (fuel_for left) left neg_inf pos_inf
      nodes (apply_move g m)

abbrev pub with_first : BotScore → ℕ × Option (List BotScore) → ℕ × Option (List BotScore)
with_first s (nodes, none) = (nodes, none)
with_first s (nodes, some rest) = (nodes, some (s ∷ rest))

abbrev pub add_score : Move → (ℕ → ℕ × Option (List BotScore)) → Probe → ℕ × Option (List BotScore)
add_score m go (nodes, none) = (nodes, none)
add_score m go (nodes, some score) = with_first (record { move = m; score = score }) (go nodes)

-- `moves.map(…)` of one iteration.
unfoldable pub root_pass : (ℕ → Move → Probe) → List Move → ℕ → ℕ × Option (List BotScore)
root_pass visit [] nodes = (nodes, some [])
root_pass visit (m ∷ ms) nodes = add_score m (λ n. root_pass visit ms n) (visit nodes m)

pub record BotScores : Type 0 where
  pub scores : List BotScore
  pub completed_depth : ℕ
  pub nodes : ℕ

-- A pass that was stopped ends the loop, any other is what the scores are now.
unfoldable pub publish :
    ℕ → BotScores → (BotScores → BotScores) → ℕ × Option (List BotScore) → BotScores
publish iteration prior go (nodes, none) = record prior { nodes = nodes }
publish iteration prior go (nodes, some scores) =
    go (record { scores = scores; completed_depth = iteration; nodes = nodes })

unfoldable pub iterate : Limits → Game → ℕ → ℕ → BotScores → BotScores
iterate limits g zero iteration prior = prior
iterate limits g (suc rounds) iteration prior =
    publish iteration prior (λ result. iterate limits g rounds (iteration + 1) result)
      (root_pass (root_search limits iteration g) (all_valid_moves g g.current_player) prior.nodes)

unfoldable pub score_bot_moves : Game → Limits → BotScores
score_bot_moves g limits =
    iterate limits g limits.depth 1 (record { scores = []; completed_depth = 0; nodes = 0 })

-- `Math.max(...scores.map(s => s.score))`.
unfoldable pub best_score : List BotScore → Score
best_score [] = neg_inf
best_score (s ∷ rest) = better leb_score s.score (best_score rest)

abbrev pub equals : Score → Score → Bool
equals a b = leb_score a b && leb_score b a

unfoldable pub candidates : List BotScore → List BotScore
candidates scores = filter (λ s. equals s.score (best_score scores)) scores

abbrev pub first_move : List Move → Option Move
first_move [] = none
first_move (m ∷ ms) = some m

abbrev pub move_of : Option BotScore → Option Move
move_of none = none
move_of (some s) = some s.move

-- `draw` stands for the random choice.
unfoldable pub choose_search_move : (List BotScore → Option BotScore) → Game → Limits → Option Move
choose_search_move draw g limits =
    let scores = (score_bot_moves g limits).scores in
    if is_empty scores
    then first_move (all_valid_moves g g.current_player)
    else move_of (draw (candidates scores))
