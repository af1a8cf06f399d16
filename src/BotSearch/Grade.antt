-- ===== src/BotSearch/Grade.antt =====
-- The grade of a played move: gradeSearchMove of shared/botSearch.js.
use purecheckers.Base.{ℕ, ◌==◌, Bool, ◌&&◌, if◌then◌else◌, Option, none, some, List, [], ◌∷◌}
use purecheckers.Base.Int.{ℤ, pos, ◌-ℤ◌, leb_ℤ}
use purecheckers.Moves.{Move}
use purecheckers.Game.{Game}
use purecheckers.Bot.Search.{Score, neg_inf, finite, pos_inf}
use purecheckers.BotSearch.{Limits, BotScore, BotScores, score_bot_moves, best_score}

pub data Rating : Type 0 where
  best good inaccuracy blunder : Rating

pub record Grade : Type 0 where
  pub rating : Rating
  pub score_diff : Option ℤ
  pub depth : ℕ

abbrev pub same_squares : Move → Move → Bool
same_squares a b =
    a.from_row == b.from_row
    && a.from_col == b.from_col
    && a.to_row == b.to_row
    && a.to_col == b.to_col

unfoldable pub find_score : List BotScore → Move → Option BotScore
find_score [] m = none
find_score (s ∷ rest) m = if same_squares s.move m then some s else find_score rest m

-- The difference to the best score, which is `none` where one of them is infinite.
abbrev pub score_gap : Score → Score → Option ℤ
score_gap (finite a) (finite b) = some (a -ℤ b)
score_gap neg_inf b = none
score_gap pos_inf b = none
score_gap (finite a) neg_inf = none
score_gap (finite a) pos_inf = none

-- 0.1, 0.5 and 2 in units of 1/20.
abbrev pub rate : Option ℤ → Rating
rate none = blunder
rate (some diff) =
    if leb_ℤ diff (pos 2)
    then best
    else if leb_ℤ diff (pos 9)
    then good
    else if leb_ℤ diff (pos 39)
    then inaccuracy
    else blunder

abbrev pub grade_of : BotScores → Option BotScore → Option Grade
grade_of r none = none
grade_of r (some played) =
    if r.completed_depth == 0
    then none
    else some (record {
      rating = rate (score_gap (best_score r.scores) played.score);
      score_diff = score_gap (best_score r.scores) played.score;
      depth = r.completed_depth;
    })

unfoldable pub grade_search_move : Game → Move → Limits → Option Grade
grade_search_move g m limits =
    let r = score_bot_moves g limits in grade_of r (find_score r.scores m)
