-- ===== src/BotSearch/Value.antt =====
-- What the scores of the bots' search say of the search without a window.
use purecheckers.Base.{
  ℕ, zero, suc, ◌+◌, leb, ltb, ◌≡◌, refl, ap, sym, subst, ◌∙◌, ◌⊎◌, inl, if_ind, if_both, Bool,
  true, false, not, ◌&&◌, ◌||◌, none, some, List, [], ◌∷◌, is_empty, is_some,
}
use purecheckers.Board.{Color, same_color}
use purecheckers.Moves.{Move}
use purecheckers.Game.{Game, all_valid_moves}
use purecheckers.Bot.{apply_move}
use purecheckers.Bot.Pruning.{
  Stands, Knows, better, unpruned, le_refl, le_left, le_right, better_le, unpruned_le, cut, go_on,
}
use purecheckers.Bot.Search.{Score, neg_inf, pos_inf, leb_score, geb_score}
use purecheckers.Bot.Value.{
  leb_score_total, leb_score_trans, leb_score_antisym, geb_score_total, geb_score_trans,
  neg_inf-least, pos_inf-least, flipped, unflipped, geb_window, leb_window, refl-Stands,
}
use purecheckers.BotSearch.{Probe, weigh_value, scan_legal, bot_search, left_after}
use purecheckers.BotSearch.Plain.{plain_search}

-- A search that was stopped says nothing, any other stands for `v` within its window.
abbrev pub Within : (Score → Score → Bool) → Score → Score → Score → Probe → Type 0
Within order low high v (nodes, none) = true ≡ true
Within order low high v (nodes, some r) = Stands order low high r v

module _ (order : Score → Score → Bool)
    (total : (a b : Score) → (order a b ≡ true) ⊎ (order b a ≡ true))
    (trans : (a b c : Score) → order a b ≡ true → order b c ≡ true → order a c ≡ true)
    (antisym : (a b : Score) → order a b ≡ true → order b a ≡ true → a ≡ b) where
  -- The window moves to the value itself when the best score lies within it.
  better-best :
      (a e v : Score) → order e a ≡ true → better order a (better order e v) ≡ better order a v
  better-best a e v h =
      let left = better order a (better order e v) in
      let right = better order a v in
      antisym left right
        (better_le order total trans a (better order e v) right (le_left order total trans a v) (
          better_le order total trans e v right (trans e a right h (le_left order total trans a v))
            (le_right order total trans a v)))
        (better_le order total trans a v left (le_left order total trans a (better order e v)) (
          trans v (better order e v) left (le_right order total trans e v)
            (le_right order total trans a (better order e v))))

  module _ (low0 low high best w v rest : Score)
      (k : Knows order total trans low0 low high best w) where
    weigh_value-Within :
        (go : Score → Score → ℕ → Probe) (probe : Probe)
        → order (better order w v) rest ≡ true
        → ((l b : Score) (n : ℕ)
            → Knows order total trans low0 l high b (better order w v)
            → Within order low0 high rest (go l b n))
        → Within order low high v probe
        → Within order low0 high rest (weigh_value order low high best go probe)
    unfolding weigh_value
    weigh_value-Within go (nodes, none) le deeper visited = refl
    weigh_value-Within go (nodes, some r) le deeper visited =
        let q = better-best low best r k.best_le in
        if_ind (λ z. Within order low0 high rest z)
          (order high (better order low (better order best r)))
          (λ h.
            cut order total trans low0 low high best w r v k visited rest
              (ap (λ z. order high z) (sym q) ∙ h) le)
          (λ h. deeper _ _ nodes (
            subst
              (λ z. Knows order total trans low0 z high (better order best r) (better order w v))
              (sym q)
              (go_on order total trans low0 low high best w r v k visited
                (ap (λ z. order high z) (sym q) ∙ h))))

  scan_legal-Within :
      (visit : Score → Score → ℕ → Move → Probe) (value : Move → Score)
      → ((a b : Score) (n : ℕ) (m : Move)
          → order b a ≡ false
          → Within order a b (value m) (visit a b n m))
      → (ms : List Move) (low0 low high best w : Score) (nodes : ℕ)
      → Knows order total trans low0 low high best w
      → Within order low0 high
          (unpruned order value ms w)
          (scan_legal order visit ms low high best nodes)
  unfolding scan_legal unpruned
  scan_legal-Within visit value stands [] low0 low high best w nodes k = record {
    upper = inl k.above;
    lower = k.below;
  }
  scan_legal-Within visit value stands (m ∷ ms) low0 low high best w nodes k =
      let w' = better order w (value m) in
      weigh_value-Within low0 low high best w (value m) (unpruned order value ms w') k _
        (visit low high nodes m) (unpruned_le order total trans value ms w')
        (λ l b n next. scan_legal-Within visit value stands ms low0 l high b w' n next)
        (stands low high nodes m k.window)

  level-Within :
      (bottom : Score)
      → ((a : Score) → order bottom a ≡ true)
      → (visit : Score → Score → ℕ → Move → Probe) (value : Move → Score)
      → ((a b : Score) (n : ℕ) (m : Move)
          → order b a ≡ false
          → Within order a b (value m) (visit a b n m))
      → (ms : List Move) (low high : Score) (nodes : ℕ) → order high low ≡ false
      → Within order low high
          (unpruned order value ms bottom)
          (scan_legal order visit ms low high bottom nodes)
  level-Within bottom least visit value stands ms low high nodes h =
      scan_legal-Within visit value stands ms low low high bottom bottom nodes (record {
        first_le = le_refl order total trans low;
        best_le = least low;
        least = λ c p q. p;
        window = h;
        above = least bottom;
        below = inl (least bottom);
      })

geb_score_antisym : (a b : Score) → geb_score a b ≡ true → geb_score b a ≡ true → a ≡ b
unfolding geb_score
geb_score_antisym a b h k = leb_score_antisym a b k h

to_leb :
    (alpha beta v : Score) (probe : Probe)
    → Within geb_score beta alpha v probe
    → Within leb_score alpha beta v probe
to_leb alpha beta v (nodes, none) s = refl
to_leb alpha beta v (nodes, some r) s = flipped alpha beta r v s

to_geb :
    (alpha beta v : Score) (probe : Probe)
    → Within leb_score alpha beta v probe
    → Within geb_score beta alpha v probe
to_geb alpha beta v (nodes, none) s = refl
to_geb alpha beta v (nodes, some r) s = unflipped alpha beta r v s

max_side :
    (visit : Score → Score → ℕ → Move → Probe) (value : Move → Score)
    → ((a b : Score) (n : ℕ) (m : Move)
        → leb_score b a ≡ false
        → Within leb_score a b (value m) (visit a b n m))
    → (ms : List Move) (alpha beta : Score) (nodes : ℕ) → leb_score beta alpha ≡ false
    → Within leb_score alpha beta
        (unpruned leb_score value ms neg_inf)
        (scan_legal leb_score visit ms alpha beta neg_inf nodes)
max_side =
    level-Within leb_score leb_score_total leb_score_trans leb_score_antisym neg_inf neg_inf-least

min_side :
    (visit : Score → Score → ℕ → Move → Probe) (value : Move → Score)
    → ((a b : Score) (n : ℕ) (m : Move)
        → leb_score b a ≡ false
        → Within leb_score a b (value m) (visit b a n m))
    → (ms : List Move) (alpha beta : Score) (nodes : ℕ) → leb_score beta alpha ≡ false
    → Within leb_score alpha beta
        (unpruned geb_score value ms pos_inf)
        (scan_legal geb_score visit ms beta alpha pos_inf nodes)
min_side visit value stands ms alpha beta nodes h =
    to_leb alpha beta (unpruned geb_score value ms pos_inf)
      (scan_legal geb_score visit ms beta alpha pos_inf nodes)
      (level-Within geb_score geb_score_total geb_score_trans geb_score_antisym pos_inf
        pos_inf-least visit value
        (λ b a n m k. to_geb a b (value m) (visit b a n m) (stands a b n m (geb_window a b k))) ms
        beta alpha nodes (leb_window alpha beta h))

module _ (node_budget : ℕ) (late : ℕ → Bool) (color : Color) where
  -- Within a window that is not closed, what the search finds before it is stopped stands for the value
  -- of the search without a window.
  pub bot_search-Within :
      (fuel left : ℕ) (alpha beta : Score) (nodes : ℕ) (g : Game)
      → leb_score beta alpha ≡ false
      → Within leb_score alpha beta
          (plain_search color fuel left g)
          (bot_search node_budget late color fuel left alpha beta nodes g)
  unfolding bot_search plain_search
  bot_search-Within zero left alpha beta nodes g h = refl
  bot_search-Within (suc fuel) left alpha beta nodes g h =
      let ms = all_valid_moves g g.current_player in
      let next_left : Move → ℕ = λ m. left_after g.current_player (apply_move g m) left in
      let value : Move → Score = λ m. plain_search color fuel (next_left m) (apply_move g m) in
      if_ind (λ z. Within leb_score alpha beta (plain_search color (suc fuel) left g) z)
        (ltb node_budget (nodes + 1) || late (nodes + 1)) (λ _. refl)
        (λ _.
          if_both g.game_over (λ v p. Within leb_score alpha beta v p) (refl-Stands alpha beta _)
            (if_both (is_empty ms) (λ v p. Within leb_score alpha beta v p)
              (refl-Stands alpha beta _)
              (if_both (leb left 1 && not (is_some g.chain_piece))
                (λ v p. Within leb_score alpha beta v p) (refl-Stands alpha beta _)
                (if_both (same_color g.current_player color)
                  (λ v p. Within leb_score alpha beta v p)
                  (max_side
                    (λ a b n m.
                      bot_search node_budget late color fuel (next_left m) a b n (apply_move g m))
                    value
                    (λ a b n m k. bot_search-Within fuel (next_left m) a b n (apply_move g m) k) ms
                    alpha beta (nodes + 1) h)
                  (min_side
                    (λ b a n m.
                      bot_search node_budget late color fuel (next_left m) a b n (apply_move g m))
                    value
                    (λ a b n m k. bot_search-Within fuel (next_left m) a b n (apply_move g m) k) ms
                    alpha beta (nodes + 1) h)))))
