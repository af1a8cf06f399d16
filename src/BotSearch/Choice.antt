-- ===== src/BotSearch/Choice.antt =====
-- The move that chooseSearchMove takes.
use purecheckers.Base.{
  ℕ, zero, suc, ◌≤◌, ◌≡◌, refl, ap, sym, subst, ◌∙◌, ◌⊎◌, inl, inr, if_ind, Bool, true,
  if◌then◌else◌, Option, some, List, [], ◌∷◌, ◌∈◌, map, map-mem, mem-map, filter, mem-filter, arith,
  is_empty,
}
use purecheckers.Moves.{Move}
use purecheckers.Game.{Game, all_valid_moves}
use purecheckers.Bot.Pruning.{better, le_left, le_right, le_refl, better-cases}
use purecheckers.Bot.Search.{Score, neg_inf, leb_score}
use purecheckers.Bot.Value.{leb_score_total, leb_score_trans, neg_inf-least}
use purecheckers.Bot.Choice.{IsGreatest}
use purecheckers.BotSearch.{
  Limits, BotScore, score_bot_moves, best_score, equals, candidates, first_move, move_of,
  choose_search_move,
}
use purecheckers.BotSearch.Exact.{by_value, move_value_at, score_bot_moves-IsPublished}

-- The random choice takes a member of a list that has one.
unfoldable pub IsPick : (List BotScore → Option BotScore) → Type 0
IsPick draw =
    (s : BotScore) (ss : List BotScore) → (n : BotScore) × (draw (s ∷ ss) ≡ some n) × (n ∈ s ∷ ss)

le_best_score :
    (xs : List BotScore) (s : BotScore) → s ∈ xs → leb_score s.score (best_score xs) ≡ true
unfolding best_score
le_best_score [] s i = absurd i
le_best_score (x ∷ xs) s (inl e) =
    subst (λ z. leb_score z.score (better leb_score x.score (best_score xs)) ≡ true) (sym e)
      (le_left leb_score leb_score_total leb_score_trans x.score (best_score xs))
le_best_score (x ∷ xs) s (inr i) =
    leb_score_trans s.score (best_score xs) (better leb_score x.score (best_score xs))
      (le_best_score xs s i)
      (le_right leb_score leb_score_total leb_score_trans x.score (best_score xs))

self : (a : Score) → leb_score a a ≡ true
self = le_refl leb_score leb_score_total leb_score_trans

-- One of the scores is as good as the best.
best_score-reached :
    (x : BotScore) (xs : List BotScore)
    → (s : BotScore) × (s ∈ x ∷ xs) × (leb_score (best_score (x ∷ xs)) s.score ≡ true)
unfolding best_score
best_score-reached x [] =
    elim (better-cases leb_score leb_score_total leb_score_trans x.score neg_inf) [
      | inl e ↦ (x, inl refl, rw e (self x.score))
      | inr e ↦ (x, inl refl, rw e (neg_inf-least x.score))
    ]
best_score-reached x (y ∷ ys) =
    elim (better-cases leb_score leb_score_total leb_score_trans x.score (best_score (y ∷ ys))) [
      | inl e ↦ (x, inl refl, ap (λ z. leb_score z x.score) e ∙ self x.score)
      | inr e ↦
          let (s, i, h) = best_score-reached y ys in (s, inr i, ap (λ z. leb_score z s.score) e ∙ h)
    ]

candidates-some : (x : BotScore) (xs : List BotScore) → (s : BotScore) × (s ∈ candidates (x ∷ xs))
unfolding candidates
candidates-some x xs =
    let (s, i, h) = best_score-reached x xs in
    (
      s,
      mem-filter (λ z. equals z.score (best_score (x ∷ xs))) (x ∷ xs) s i
          (ground (arith, h, le_best_score (x ∷ xs) s i)),
    )

picked :
    (draw : List BotScore → Option BotScore)
    → IsPick draw
    → (ss : List BotScore) (s : BotScore) → s ∈ ss
    → (n : BotScore) × (draw ss ≡ some n) × (n ∈ ss)
unfolding IsPick
picked draw h [] s i = absurd i
picked draw h (x ∷ xs) s i = h x xs

filter-mem :
    (test : BotScore → Bool) (xs : List BotScore) (x : BotScore)
    → x ∈ filter test xs
    → (x ∈ xs) × (test x ≡ true)
unfolding filter
filter-mem test [] x i = absurd i
filter-mem test (y ∷ ys) x i =
    if_ind (λ z. x ∈ z → (x ∈ y ∷ ys) × (test x ≡ true)) (test y)
      (λ t k. elim k [
        | inl e ↦ (inl e, ap test e ∙ t)
        | inr j ↦ let (m, q) = filter-mem test ys x j in (inr m, q)
      ])
      (λ _ k. let (m, q) = filter-mem test ys x k in (inr m, q)) i

-- A candidate among the values of the moves has the greatest of them.
candidates-IsGreatest :
    (value : Move → Score) (ms : List Move) (s : BotScore)
    → s ∈ candidates (map (by_value value) ms)
    → IsGreatest value ms s.move
unfolding candidates IsGreatest
candidates-IsGreatest value ms s i =
    let scores = map (by_value value) ms in
    let (mem, test) = filter-mem (λ z. equals z.score (best_score scores)) scores s i in
    let (m, listed, e) = map-mem (by_value value) ms s mem in
    let own : s.score ≡ value s.move = ap (λ z. z.score) e ∙ sym (ap (λ z. value z.move) e) in
    let reaches : leb_score (best_score scores) s.score ≡ true = ground (arith, test) in
    (
      subst (λ z. z ∈ ms) (sym (ap (λ z. z.move) e)) listed,
      λ other k.
          leb_score_trans (value other) (best_score scores) (value s.move)
            (le_best_score scores (by_value value other) (mem-map (by_value value) ms other k))
            (ap (λ z. leb_score (best_score scores) z) (sym own) ∙ reaches),
    )

zero_or : (n : ℕ) → (n ≡ 0) ⊎ (1 ≤ n)
zero_or zero = inl refl
zero_or (suc n) = inr (omega arith)

-- What chooseSearchMove takes: a move of the greatest value to the completed depth.
pub record IsChosen (g : Game) (limits : Limits) (chosen : Option Move) : Type 0 where
  pub move : Move
  pub chosen_is : chosen ≡ some move
  pub listed : move ∈ all_valid_moves g g.current_player
  pub greatest :
      1 ≤ (score_bot_moves g limits).completed_depth
      → IsGreatest
          (move_value_at (score_bot_moves g limits).completed_depth g)
          (all_valid_moves g g.current_player)
          move

-- The choice from some scores, or the first of the moves when there is none.
abbrev choice : (List BotScore → Option BotScore) → List Move → List BotScore → Option Move
choice draw ms scores =
    if is_empty scores then first_move ms else move_of (draw (candidates scores))

greatest_chosen :
    (draw : List BotScore → Option BotScore) (value : Move → Score) (ms : List Move) (m : Move)
    → IsPick draw
    → m ∈ ms
    → (n : Move) × (choice draw ms (map (by_value value) ms) ≡ some n) × IsGreatest value ms n
greatest_chosen draw value [] m h i = absurd i
greatest_chosen draw value (x ∷ xs) m h i =
    let scores = map (by_value value) (x ∷ xs) in
    let (s, mem) = candidates-some (by_value value x) (map (by_value value) xs) in
    let (n, e, k) = picked draw h (candidates scores) s mem in
    (n.move, ap move_of e, candidates-IsGreatest value (x ∷ xs) n k)

first_chosen :
    (draw : List BotScore → Option BotScore) (ms : List Move) (m : Move)
    → m ∈ ms
    → (n : Move) × (choice draw ms [] ≡ some n) × (n ∈ ms)
first_chosen draw [] m i = absurd i
first_chosen draw (x ∷ xs) m i = (x, refl, inl refl)

-- Where the random choice takes a member of a list that has one and the game has a legal move,
-- chooseSearchMove returns a legal move, and if a depth was completed no legal move has a greater value to
-- that depth, by the search without pruning.
pub choose_search_move-IsChosen :
    (draw : List BotScore → Option BotScore) (g : Game) (limits : Limits) (m : Move)
    → IsPick draw
    → m ∈ all_valid_moves g g.current_player
    → IsChosen g limits (choose_search_move draw g limits)
unfolding choose_search_move IsGreatest
choose_search_move-IsChosen draw g limits m h i =
    let r = score_bot_moves g limits in
    let ms = all_valid_moves g g.current_player in
    let p = score_bot_moves-IsPublished g limits in
    elim (zero_or r.completed_depth) [
      | inl z ↦
          let (n, e, k) = first_chosen draw ms m i in
          record {
            move = n;
            chosen_is = ap (choice draw ms) (p.unscored z) ∙ e;
            listed = k;
            greatest = λ l. absurd (omega (arith, z, l));
          }
      | inr l ↦
          let (n, e, k) = greatest_chosen draw (move_value_at r.completed_depth g) ms m h i in
          record {
            move = n;
            chosen_is = ap (choice draw ms) (p.values l) ∙ e;
            listed = k.0;
            greatest = λ _. k;
          }
    ]
