-- ===== src/BotSearch/Exact.antt =====
-- The scores that scoreBotMoves publishes.
use purecheckers.Base.{
  ℕ, zero, suc, ◌+◌, ◌≤◌, ◌≡◌, refl, ap, ◌∙◌, true, Option, none, some, List, [], ◌∷◌, map, arith,
}
use purecheckers.Moves.{Move}
use purecheckers.Game.{Game, all_valid_moves}
use purecheckers.Bot.{apply_move}
use purecheckers.Bot.Search.{Score, neg_inf, pos_inf, leb_score}
use purecheckers.Bot.Value.{exact}
use purecheckers.BotSearch.{
  Probe, Limits, BotScore, BotScores, left_after, fuel_for, root_search, with_first, add_score,
  root_pass, publish, iterate, score_bot_moves,
}
use purecheckers.BotSearch.Plain.{plain_search}
use purecheckers.BotSearch.Value.{Within, bot_search-Within}

-- The value of a move to the depth of an iteration.
unfoldable pub move_value_at : ℕ → Game → Move → Score
move_value_at iteration g m =
    let left = left_after g.current_player (apply_move g m) (iteration + 1) in
    plain_search g.current_player (fuel_for left) left (apply_move g m)

abbrev pub by_value : (Move → Score) → Move → BotScore
by_value value m = record { move = m; score = value m }

-- A pass that was not stopped gives each move its value.
abbrev pub IsPass : (Move → Score) → List Move → ℕ × Option (List BotScore) → Type 0
IsPass value ms (nodes, none) = true ≡ true
IsPass value ms (nodes, some scores) = scores ≡ map (by_value value) ms

with_first-IsPass :
    (value : Move → Score) (m : Move) (ms : List Move) (s : BotScore)
    (rest : ℕ × Option (List BotScore))
    → s ≡ by_value value m
    → IsPass value ms rest
    → IsPass value (m ∷ ms) (with_first s rest)
with_first-IsPass value m ms s (nodes, none) e k = refl
with_first-IsPass value m ms s (nodes, some rest) e k =
    ap (λ z. z ∷ rest) e ∙ ap (λ z. by_value value m ∷ z) k

add_score-IsPass :
    (value : Move → Score) (m : Move) (ms : List Move) (go : ℕ → ℕ × Option (List BotScore))
    (probe : Probe)
    → Within leb_score neg_inf pos_inf (value m) probe
    → ((n : ℕ) → IsPass value ms (go n))
    → IsPass value (m ∷ ms) (add_score m go probe)
add_score-IsPass value m ms go (nodes, none) s deeper = refl
add_score-IsPass value m ms go (nodes, some r) s deeper =
    with_first-IsPass value m ms (record { move = m; score = r }) (go nodes)
      (ap (λ z. record { move = m; score = z }) (exact r (value m) s)) (deeper nodes)

root_pass-IsPass :
    (visit : ℕ → Move → Probe) (value : Move → Score)
    → ((n : ℕ) (m : Move) → Within leb_score neg_inf pos_inf (value m) (visit n m))
    → (ms : List Move) (nodes : ℕ) → IsPass value ms (root_pass visit ms nodes)
unfolding root_pass
root_pass-IsPass visit value stands [] nodes = refl
root_pass-IsPass visit value stands (m ∷ ms) nodes =
    add_score-IsPass value m ms (λ n. root_pass visit ms n) (visit nodes m) (stands nodes m)
      (λ n. root_pass-IsPass visit value stands ms n)

-- The scores are the values to the completed depth, which is at most the one asked for.
pub record IsPublished (g : Game) (limits : Limits) (r : BotScores) : Type 0 where
  pub values :
      1 ≤ r.completed_depth
      → r.scores
        ≡ map (by_value (move_value_at r.completed_depth g)) (all_valid_moves g g.current_player)
  pub unscored : r.completed_depth ≡ 0 → r.scores ≡ []
  pub within : r.completed_depth ≤ limits.depth

module _ (g : Game) (limits : Limits) where
  publish-IsPublished :
      (iteration : ℕ) (prior : BotScores) (go : BotScores → BotScores)
      (pass : ℕ × Option (List BotScore))
      → 1 ≤ iteration
      → iteration ≤ limits.depth
      → IsPublished g limits prior
      → ((r : BotScores) → IsPublished g limits r → IsPublished g limits (go r))
      → IsPass (move_value_at iteration g) (all_valid_moves g g.current_player) pass
      → IsPublished g limits (publish iteration prior go pass)
  unfolding publish
  publish-IsPublished iteration prior go (nodes, none) l h p deeper k = record {
    values = p.values;
    unscored = p.unscored;
    within = p.within;
  }
  publish-IsPublished iteration prior go (nodes, some scores) l h p deeper k =
      deeper (record { scores = scores; completed_depth = iteration; nodes = nodes })
        (record { values = λ _. k; unscored = λ z. absurd (omega (arith, z)); within = h })

  root_search-Within :
      (iteration nodes : ℕ) (m : Move)
      → Within leb_score neg_inf pos_inf
          (move_value_at iteration g m)
          (root_search limits iteration g nodes m)
  unfolding root_search move_value_at leb_score
  root_search-Within iteration nodes m =
      let left = left_after g.current_player (apply_move g m) (iteration + 1) in
      bot_search-Within limits.node_budget limits.late g.current_player (fuel_for left) left neg_inf
        pos_inf nodes (apply_move g m) refl

  iterate-IsPublished :
      (rounds iteration : ℕ) (prior : BotScores)
      → 1 ≤ iteration
      → iteration + rounds ≤ limits.depth + 1
      → IsPublished g limits prior
      → IsPublished g limits (iterate limits g rounds iteration prior)
  unfolding iterate
  iterate-IsPublished zero iteration prior l h p = p
  iterate-IsPublished (suc rounds) iteration prior l h p =
      publish-IsPublished iteration prior _
        (root_pass (root_search limits iteration g) (all_valid_moves g g.current_player)
          prior.nodes)
        l (omega arith) p
        (λ r q. iterate-IsPublished rounds (iteration + 1) r (omega arith) (omega arith) q)
        (root_pass-IsPass (root_search limits iteration g) (move_value_at iteration g)
          (λ n m. root_search-Within iteration n m) (all_valid_moves g g.current_player)
          prior.nodes)

  -- scoreBotMoves publishes one score for each legal move, in their order, and each is the value of the
  -- search without pruning to the completed depth, however the budget and the clock stop it; before a
  -- depth is completed it publishes none.
  pub score_bot_moves-IsPublished : IsPublished g limits (score_bot_moves g limits)
  unfolding score_bot_moves
  score_bot_moves-IsPublished =
      iterate-IsPublished limits.depth 1 _ (omega arith) (omega arith) (record {
        values = λ h. absurd (omega (arith, h));
        unscored = λ _. refl;
        within = omega arith;
      })
