-- ===== src/PuzzleSearch/Deepening.antt =====
-- search and scoreMoves of shared/puzzleSearch.js.
use purecheckers.Base.{
  ℕ, zero, suc, ◌+◌, ◌-◌, leb, ◌==◌, Bool, true, false, ◌&&◌, if◌then◌else◌, Option, none, some,
  List, [], ◌∷◌, ◌++◌, length, map,
}
use purecheckers.Base.Int.{ℤ, ◌-ℤ◌}
use purecheckers.Board.{Color, same_color}
use purecheckers.Game.{Game}
use purecheckers.Bot.{evaluate}
use purecheckers.Bot.Search.{Score, neg_inf, finite, pos_inf, leb_score}
use purecheckers.Puzzle.{StoredMove}
use purecheckers.PuzzleSearch.Position.{search_clone}
use purecheckers.PuzzleSearch.Turns.{FullMove, full_moves, serialize_move}
use purecheckers.PuzzleSearch.Negamax.{
  Found, neg_score, signed, above, terminal_score, is_win_score, negamax,
}

-- The options of a search, its defaults filled in.
pub record Options : Type 0 where
  pub depth : ℕ
  pub color : Color
  pub node_budget : ℕ
  pub ply : ℕ
  pub alpha : Score
  pub beta : Score
  pub max_quiescence : ℕ

pub record SearchResult : Type 0 where
  pub score : Score
  pub pv : List FullMove
  pub depth : ℕ
  pub nodes : ℕ
  pub complete : Bool
  pub aborted : Bool

abbrev pub default_node_budget : ℕ
default_node_budget = 2000000

-- `Math.abs`.
abbrev pub absolute : Score → Score
absolute s = if leb_score s (neg_score s) then neg_score s else s

abbrev pub one_more : Bool → ℕ → ℕ → Score → List FullMove → SearchResult
one_more last d nodes score pv = record {
  score = score;
  pv = pv;
  depth = d;
  nodes = nodes;
  complete = last;
  aborted = false;
}

-- What an iteration to the depth `d` makes of the result before it, where `go` is the rest of the loop.
unfoldable pub conclude :
    Bool
    → Bool
    → ℕ
    → SearchResult
    → (List FullMove → ℕ → SearchResult → SearchResult)
    → Found
    → SearchResult
conclude same last d prior go (nodes, none) = record prior { aborted = true; nodes = nodes }
conclude same last d prior go (nodes, some (score, pv)) =
    let result = one_more last d nodes (signed same score) pv in
    if is_win_score (absolute score) && leb (length pv) d
    then record result { complete = true }
    else go pv nodes result

-- The loop over the depths, `d` first, with `rounds` of them left.
unfoldable pub deepen :
    Options → Bool → Game → ℕ → ℕ → List FullMove → ℕ → SearchResult → SearchResult
deepen opts same root zero d guide nodes prior = prior
deepen opts same root (suc rounds) d guide nodes prior =
    conclude same (rounds == 0) d prior
      (λ pv n result. deepen opts same root rounds (d + 1) pv n result)
      (negamax opts.node_budget opts.max_quiescence opts.ply guide (d + opts.max_quiescence)
        opts.ply (if same then opts.alpha else neg_score opts.beta)
        (if same then opts.beta else neg_score opts.alpha) nodes root)

unfoldable pub search : Game → Options → SearchResult
search g opts =
    let root = search_clone g in
    let same = same_color opts.color g.current_player in
    if root.game_over
    then record {
      score = signed same (terminal_score root root.current_player opts.ply);
      pv = [];
      depth = opts.depth;
      nodes = 1;
      complete = true;
      aborted = false;
    }
    else deepen opts same root opts.depth 1 [] 0 (record {
      score = signed same (finite (evaluate root.board root.current_player));
      pv = [];
      depth = 0;
      nodes = 0;
      complete = false;
      aborted = false;
    })

unfoldable pub principal_variation : SearchResult → List StoredMove
principal_variation result = map serialize_move result.pv

pub record ScoredMove : Type 0 where
  pub move : FullMove
  pub score : Score
  pub pv : List FullMove
  pub exact : Bool
  pub complete : Bool
  pub nodes : Option ℕ
  pub depth : Option ℕ

pub record Scores : Type 0 where
  pub scored : List ScoredMove
  pub complete : Bool
  pub nodes : ℕ
  pub moves : List FullMove

abbrev pub less : Score → ℤ → Score
less neg_inf gap = neg_inf
less (finite a) gap = finite (a -ℤ gap)
less pos_inf gap = pos_inf

abbrev pub lower_bound : Option ℤ → Score → Score
lower_bound none best = neg_inf
lower_bound (some gap) best = less best gap

-- The search of the position after a move, for the mover.
unfoldable pub search_after : Options → Color → Score → ℕ → FullMove → SearchResult
search_after opts mover alpha remaining m = search m.after (record opts {
  color = mover;
  ply = opts.ply + 1;
  node_budget = remaining;
  alpha = alpha;
  beta = pos_inf;
})

abbrev pub unsearched : Bool → FullMove → ScoredMove
unsearched same m = record {
  move = m;
  score = signed same neg_inf;
  pv = [];
  exact = false;
  complete = false;
  nodes = none;
  depth = none;
}

abbrev pub scored_by : Bool → Score → FullMove → SearchResult → ScoredMove
scored_by same alpha m r = record {
  move = m;
  score = signed same r.score;
  pv = r.pv;
  exact = above r.score alpha;
  complete = r.complete;
  nodes = some r.nodes;
  depth = some r.depth;
}

-- The loop over the moves: what is scored, whether all is complete, the nodes and the mover's best.
unfoldable pub score_from :
    Options
    → Option ℤ
    → Color
    → List FullMove
    → List ScoredMove
    → Bool
    → ℕ
    → Score
    → List ScoredMove × (Bool × ℕ)
score_from opts gap mover [] scored complete nodes best = (scored, (complete, nodes))
score_from opts gap mover (m ∷ ms) scored complete nodes best =
    let same = same_color opts.color mover in
    let alpha = lower_bound gap best in
    let r = search_after opts mover alpha (opts.node_budget - nodes) m in
    let skipped =
      score_from opts gap mover ms (scored ++ unsearched same m ∷ []) false nodes best in
    let searched =
      score_from opts gap mover ms (scored ++ scored_by same alpha m r ∷ [])
        (complete && r.complete) (nodes + r.nodes) (if above r.score best then r.score else best) in
    if leb opts.node_budget nodes then skipped else searched

-- `a` comes before `b` in the sorted scores, or with it.
abbrev pub no_worse : Bool → ScoredMove → ScoredMove → Bool
no_worse same a b = if same then leb_score b.score a.score else leb_score a.score b.score

unfoldable pub insert_scored : Bool → ScoredMove → List ScoredMove → List ScoredMove
insert_scored same a [] = a ∷ []
insert_scored same a (b ∷ bs) =
    if no_worse same a b then a ∷ b ∷ bs else b ∷ insert_scored same a bs

unfoldable pub sort_scored : Bool → List ScoredMove → List ScoredMove
sort_scored same [] = []
sort_scored same (a ∷ rest) = insert_scored same a (sort_scored same rest)

-- `gap` is the gap window in units of 1/20; the options' window is not used.
unfoldable pub score_moves : Game → Options → Option ℤ → Scores
score_moves g opts gap =
    let moves = full_moves g in
    let (scored, (complete, nodes)) =
      score_from opts gap g.current_player moves [] true 0 neg_inf in
    record {
      scored = sort_scored (same_color opts.color g.current_player) scored;
      complete = complete;
      nodes = nodes;
      moves = moves;
    }
