-- ===== src/PuzzleSearch/Plain.antt =====
-- Negamax without a window, an order of the moves or a budget: what negamax of shared/puzzleSearch.js is
-- to find.
use purecheckers.Base.{
  ℕ, zero, suc, ◌+◌, leb, ◌≡◌, refl, ap, ◌∙◌, if_ind, true, not, ◌&&◌, if◌then◌else◌, List, [], ◌∷◌,
}
use purecheckers.Base.Int.{ℤ, leb_ℤ}
use purecheckers.Game.{Game}
use purecheckers.Bot.{evaluate}
use purecheckers.Bot.Pruning.{better, le_refl, le_left, le_right, better_le}
use purecheckers.Bot.Search.{Score, neg_inf, finite, leb_score}
use purecheckers.Bot.Value.{leb_score_total, leb_score_trans, leb_score_antisym}
use purecheckers.PuzzleSearch.Turns.{FullMove, full_moves}
use purecheckers.PuzzleSearch.Negamax.{
  lost_score, neg_score, terminal_score, has_captures, insert_move, sort_moves,
}

-- The greatest value of the moves, and `best` at least.
unfoldable pub greatest : (FullMove → Score) → List FullMove → Score → Score
greatest value [] best = best
greatest value (m ∷ ms) best = greatest value ms (better leb_score best (value m))

-- `deeper` for the moves of a node that has any.
abbrev pub value_or_lost : ℕ → List FullMove → (List FullMove → Score) → Score
value_or_lost ply [] deeper = lost_score ply
value_or_lost ply (m ∷ ms) deeper = deeper (m ∷ ms)

unfoldable pub plain_negamax : ℕ → ℕ → ℕ → Game → Score
plain_negamax max_quiescence zero ply g =
    if g.game_over
    then terminal_score g g.current_player ply
    else finite (evaluate g.board g.current_player)
plain_negamax max_quiescence (suc left) ply g =
    if g.game_over
    then terminal_score g g.current_player ply
    else if leb (suc left) max_quiescence && not (has_captures g)
    then finite (evaluate g.board g.current_player)
    else value_or_lost ply (full_moves g) (λ moves.
      greatest (λ m. neg_score (plain_negamax max_quiescence left (ply + 1) m.after)) moves neg_inf)

le_better_left : (a b : Score) → leb_score a (better leb_score a b) ≡ true
le_better_left = le_left leb_score leb_score_total leb_score_trans

le_better_right : (a b : Score) → leb_score b (better leb_score a b) ≡ true
le_better_right = le_right leb_score leb_score_total leb_score_trans

better_least :
    (a b c : Score)
    → leb_score a c ≡ true
    → leb_score b c ≡ true
    → leb_score (better leb_score a b) c ≡ true
better_least = better_le leb_score leb_score_total leb_score_trans

better_swap_le :
    (w a b : Score)
    → leb_score
        (better leb_score (better leb_score w a) b)
        (better leb_score (better leb_score w b) a)
      ≡ true
better_swap_le w a b =
    let wb = better leb_score w b in
    let all = better leb_score wb a in
    better_least (better leb_score w a) b all
      (better_least w a all (leb_score_trans w wb all (le_better_left w b) (le_better_left wb a))
        (le_better_right wb a))
      (leb_score_trans b wb all (le_better_right w b) (le_better_left wb a))

better_swap :
    (w a b : Score)
    → better leb_score (better leb_score w a) b ≡ better leb_score (better leb_score w b) a
better_swap w a b =
    leb_score_antisym (better leb_score (better leb_score w a) b)
      (better leb_score (better leb_score w b) a) (better_swap_le w a b) (better_swap_le w b a)

greatest-insert_move :
    (value : FullMove → Score) (order : FullMove → ℤ) (m : FullMove) (ms : List FullMove)
    (w : Score)
    → greatest value (insert_move order m ms) w ≡ greatest value ms (better leb_score w (value m))
unfolding greatest insert_move
greatest-insert_move value order m [] w = refl
greatest-insert_move value order m (n ∷ ns) w =
    if_ind (λ z. greatest value z w ≡ greatest value (n ∷ ns) (better leb_score w (value m)))
      (leb_ℤ (order n) (order m)) (λ _. refl)
      (λ _.
        greatest-insert_move value order m ns (better leb_score w (value n))
        ∙ ap (λ z. greatest value ns z) (better_swap w (value n) (value m)))

pub greatest-sort_moves :
    (value : FullMove → Score) (order : FullMove → ℤ) (ms : List FullMove) (w : Score)
    → greatest value (sort_moves order ms) w ≡ greatest value ms w
unfolding greatest sort_moves
greatest-sort_moves value order [] w = refl
greatest-sort_moves value order (m ∷ ms) w =
    greatest-insert_move value order m (sort_moves order ms) w
    ∙ greatest-sort_moves value order ms (better leb_score w (value m))

pub le_greatest :
    (value : FullMove → Score) (ms : List FullMove) (w : Score)
    → leb_score w (greatest value ms w) ≡ true
unfolding greatest
le_greatest value [] w = le_refl leb_score leb_score_total leb_score_trans w
le_greatest value (m ∷ ms) w =
    leb_score_trans w (better leb_score w (value m))
      (greatest value ms (better leb_score w (value m))) (le_better_left w (value m))
      (le_greatest value ms (better leb_score w (value m)))
