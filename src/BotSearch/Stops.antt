-- ===== src/BotSearch/Stops.antt =====
-- The bots' search stops only by its budget and the clock.
use purecheckers.Base.{
  ℕ, zero, suc, ◌+◌, ◌≤◌, leb, ltb, ◌≡◌, refl, ◌⊎◌, inl, inr, if_ind, Bool, true, false, not, ◌&&◌,
  ◌||◌, Bool-cases, Option, none, some, List, [], ◌∷◌, ◌∈◌, arith, is_empty, is_some,
}
use purecheckers.Board.{Color, same_color}
use purecheckers.Board.Cells.{IsBoard}
use purecheckers.Moves.{Move}
use purecheckers.Game.{Game, all_valid_moves}
use purecheckers.Bot.{apply_move}
use purecheckers.Bot.Pruning.{better}
use purecheckers.Bot.Search.{Score, neg_inf, pos_inf, leb_score, geb_score}
use purecheckers.BotSearch.{
  Probe, Limits, BotScore, BotScores, weigh_value, scan_legal, bot_search, left_after, fuel_for,
  root_search, with_first, add_score, root_pass, publish, iterate, score_bot_moves,
}
use purecheckers.BotSearch.Plies.{pieces_le, IsFueled, apply_move-IsFueled, turn_left}

module _ (budget : ℕ) (late : ℕ → Bool) where
  -- The budget or the clock stops a search at its node `n`, which is one past the budget at most.
  pub record StoppedAt (n : ℕ) : Type 0 where
    pub counted : n ≤ budget + 1
    pub stopped : (n ≡ budget + 1) ⊎ (late n ≡ true)

  -- A search was stopped, or has stayed within its budget.
  abbrev pub InTime : {A : Type 0} → ℕ × Option A → Type 0
  InTime (nodes, none) = StoppedAt nodes
  InTime (nodes, some a) = nodes ≤ budget

  weigh_value-InTime :
      (order : Score → Score → Bool) (low high best : Score) (go : Score → Score → ℕ → Probe)
      (probe : Probe)
      → ((l b : Score) (n : ℕ) → n ≤ budget → InTime (go l b n))
      → InTime probe
      → InTime (weigh_value order low high best go probe)
  unfolding weigh_value
  weigh_value-InTime order low high best go (nodes, none) keeps t = t
  weigh_value-InTime order low high best go (nodes, some v) keeps t =
      let best' = better order best v in
      let low' = better order low best' in
      if_ind (λ z. InTime {A = Score} z) (order high low') (λ _. t) (λ _. keeps low' best' nodes t)

  scan_legal-InTime :
      (order : Score → Score → Bool) (visit : Score → Score → ℕ → Move → Probe) (ms : List Move)
      → ((l h : Score) (n : ℕ) (m : Move) → m ∈ ms → n ≤ budget → InTime (visit l h n m))
      → (low high best : Score) (nodes : ℕ) → nodes ≤ budget
      → InTime (scan_legal order visit ms low high best nodes)
  unfolding scan_legal
  scan_legal-InTime order visit [] keeps low high best nodes h = h
  scan_legal-InTime order visit (m ∷ ms) keeps low high best nodes h =
      weigh_value-InTime order low high best (λ l b n. scan_legal order visit ms l high b n)
        (visit low high nodes m)
        (λ l b n k.
          scan_legal-InTime order visit ms (λ a c i x mem q. keeps a c i x (inr mem) q) l high b n
            k)
        (keeps low high nodes m (inl refl) h)

  stop_here :
      (nodes : ℕ)
      → nodes ≤ budget
      → (ltb budget (nodes + 1) || late (nodes + 1)) ≡ true
      → StoppedAt (nodes + 1)
  stop_here nodes h e = elim (Bool-cases (ltb budget (nodes + 1))) [
    | inl t ↦ record { counted = omega arith; stopped = inl (ground (arith, t)) }
    | inr f ↦ record { counted = omega arith; stopped = inr (ground (arith, f)) }
  ]

  go_here : (nodes : ℕ) → (ltb budget (nodes + 1) || late (nodes + 1)) ≡ false → nodes + 1 ≤ budget
  go_here nodes e = ground arith

  module _ (color : Color) where
    bot_search-InTime :
        (fuel left : ℕ) (alpha beta : Score) (nodes : ℕ) (g : Game)
        → IsFueled fuel left g
        → nodes ≤ budget
        → InTime (bot_search budget late color fuel left alpha beta nodes g)
    unfolding bot_search
    bot_search-InTime zero left alpha beta nodes g f h = absurd (omega (arith, f.plies))
    bot_search-InTime (suc fuel) left alpha beta nodes g f h =
        let ms = all_valid_moves g g.current_player in
        if_ind (λ z. InTime {A = Score} z) (ltb budget (nodes + 1) || late (nodes + 1))
          (stop_here nodes h)
          (λ go.
            if_ind (λ z. InTime {A = Score} z) g.game_over (λ _. go_here nodes go)
              (λ o.
                if_ind (λ z. InTime {A = Score} z) (is_empty ms) (λ _. go_here nodes go)
                  (λ _.
                    if_ind (λ z. InTime {A = Score} z) (leb left 1 && not (is_some g.chain_piece))
                      (λ _. go_here nodes go)
                      (λ d.
                        let deeper : (a b : Score) (n : ℕ) (m : Move)
                            → m ∈ ms
                            → n ≤ budget
                            → InTime (
                                bot_search budget late color fuel
                                  (left_after g.current_player (apply_move g m) left) a b n
                                  (apply_move g m)) =
                          λ a b n m i k.
                            bot_search-InTime fuel
                              (left_after g.current_player (apply_move g m) left) a b n
                              (apply_move g m)
                              (apply_move-IsFueled fuel left g m f.board o
                                (turn_left (suc fuel) left g f d) (omega (arith, f.plies)) i)
                              k in
                        if_ind (λ z. InTime {A = Score} z) (same_color g.current_player color)
                          (λ _.
                            scan_legal-InTime leb_score _ ms deeper alpha beta neg_inf (nodes + 1)
                              (go_here nodes go))
                          (λ _.
                            scan_legal-InTime geb_score _ ms (λ b a n m i k. deeper a b n m i k)
                              beta alpha pos_inf (nodes + 1) (go_here nodes go))))))

  with_first-InTime :
      (s : BotScore) (rest : ℕ × Option (List BotScore)) → InTime rest → InTime (with_first s rest)
  with_first-InTime s (nodes, none) t = t
  with_first-InTime s (nodes, some rest) t = t

  add_score-InTime :
      (m : Move) (go : ℕ → ℕ × Option (List BotScore)) (probe : Probe)
      → ((n : ℕ) → n ≤ budget → InTime (go n))
      → InTime probe
      → InTime (add_score m go probe)
  add_score-InTime m go (nodes, none) keeps t = t
  add_score-InTime m go (nodes, some score) keeps t =
      with_first-InTime (record { move = m; score = score }) (go nodes) (keeps nodes t)

  root_pass-InTime :
      (visit : ℕ → Move → Probe) (ms : List Move)
      → ((n : ℕ) (m : Move) → m ∈ ms → n ≤ budget → InTime (visit n m))
      → (nodes : ℕ) → nodes ≤ budget
      → InTime (root_pass visit ms nodes)
  unfolding root_pass
  root_pass-InTime visit [] keeps nodes h = h
  root_pass-InTime visit (m ∷ ms) keeps nodes h =
      add_score-InTime m (λ n. root_pass visit ms n) (visit nodes m)
        (λ n k. root_pass-InTime visit ms (λ i x mem q. keeps i x (inr mem) q) n k)
        (keeps nodes m (inl refl) h)

left_after_least : (mover : Color) (next : Game) (n : ℕ) → n ≤ left_after mover next (n + 1)
left_after_least mover next n =
    if_ind (λ z. n ≤ z) (same_color next.current_player mover) (λ _. omega arith) (λ _. omega arith)

-- The loop over the depths completed the depth asked for within the budget, or the budget or the clock
-- stopped it.
abbrev pub IsTimed : Limits → BotScores → Type 0
IsTimed limits r =
    ((r.completed_depth ≡ limits.depth) × (r.nodes ≤ limits.node_budget))
    ⊎ StoppedAt limits.node_budget limits.late r.nodes

module _ (g : Game) (limits : Limits) (b : IsBoard g.board) (o : g.game_over ≡ false) where
  root_search-InTime :
      (iteration nodes : ℕ) (m : Move)
      → m ∈ all_valid_moves g g.current_player
      → nodes ≤ limits.node_budget
      → InTime limits.node_budget limits.late (root_search limits iteration g nodes m)
  unfolding root_search
  root_search-InTime iteration nodes m i h =
      let left = left_after g.current_player (apply_move g m) (iteration + 1) in
      bot_search-InTime limits.node_budget limits.late g.current_player (fuel_for left) left neg_inf
        pos_inf nodes (apply_move g m)
        (apply_move-IsFueled (fuel_for left) (iteration + 1) g m b o (omega arith)
          (omega (
            arith,
            pieces_le g.board,
            left_after_least g.current_player (apply_move g m) iteration,
          ))
          i)
        h

  publish-IsTimed :
      (iteration : ℕ) (prior : BotScores) (go : BotScores → BotScores)
      (pass : ℕ × Option (List BotScore))
      → ((r : BotScores)
          → r.completed_depth ≡ iteration
          → r.nodes ≤ limits.node_budget
          → IsTimed limits (go r))
      → InTime limits.node_budget limits.late pass
      → IsTimed limits (publish iteration prior go pass)
  unfolding publish
  publish-IsTimed iteration prior go (nodes, none) deeper t = inr t
  publish-IsTimed iteration prior go (nodes, some scores) deeper t =
      deeper (record { scores = scores; completed_depth = iteration; nodes = nodes }) refl t

  iterate-IsTimed :
      (rounds iteration : ℕ) (prior : BotScores)
      → iteration + rounds ≡ limits.depth + 1
      → prior.completed_depth + 1 ≡ iteration
      → prior.nodes ≤ limits.node_budget
      → IsTimed limits (iterate limits g rounds iteration prior)
  unfolding iterate
  iterate-IsTimed zero iteration prior h d n = inl (omega (arith, h, d), n)
  iterate-IsTimed (suc rounds) iteration prior h d n =
      publish-IsTimed iteration prior _
        (root_pass (root_search limits iteration g) (all_valid_moves g g.current_player)
          prior.nodes)
        (λ r e k. iterate-IsTimed rounds (iteration + 1) r (omega (arith, h)) (omega (arith, e)) k)
        (root_pass-InTime limits.node_budget limits.late (root_search limits iteration g)
          (all_valid_moves g g.current_player) (λ i m mem q. root_search-InTime iteration i m mem q)
          prior.nodes n)

  -- For a game on a whole board that is not over, scoreBotMoves completes the depth asked for within its
  -- node budget, unless the budget stops it, one node past it, or the clock does, which was late at the
  -- last node. So no line is too long for the fuel, however many pieces its chains take.
  pub score_bot_moves-IsTimed : IsTimed limits (score_bot_moves g limits)
  unfolding score_bot_moves
  score_bot_moves-IsTimed = iterate-IsTimed limits.depth 1 _ (omega arith) refl (omega arith)
