-- ===== src/PuzzleSearch/Exact.antt =====
-- The score that search of shared/puzzleSearch.js reports.
use purecheckers.Base.{
  ℕ, zero, suc, ◌+◌, ◌≤◌, leb, ◌==◌, ◌≡◌, refl, ap, sym, subst, if_ind, Bool, true, false, ◌&&◌,
  if◌then◌else◌, none, some, List, [], arith, length,
}
use purecheckers.Board.{same_color}
use purecheckers.Game.{Game}
use purecheckers.Bot.{evaluate}
use purecheckers.Bot.Search.{Score, neg_inf, finite, pos_inf, leb_score}
use purecheckers.Bot.Value.{exact}
use purecheckers.PuzzleSearch.Position.{search_clone}
use purecheckers.PuzzleSearch.Turns.{FullMove}
use purecheckers.PuzzleSearch.Negamax.{
  Found, neg_score, signed, is_win_score, terminal_score, negamax,
}
use purecheckers.PuzzleSearch.Plain.{plain_negamax}
use purecheckers.PuzzleSearch.Value.{StandsFor, negamax-StandsFor}
use purecheckers.PuzzleSearch.Deepening.{Options, SearchResult, absolute, conclude, deepen, search}

-- The value of the game to a depth, from the view of the options' color.
abbrev pub value_at : Options → Game → ℕ → Score
value_at opts g d =
    signed (same_color opts.color g.current_player)
      (plain_negamax opts.max_quiescence (d + opts.max_quiescence) opts.ply (search_clone g))

-- The evaluation of the position itself, or its terminal score, from the view of the options' color.
abbrev pub static_score : Options → Game → Score
static_score opts g =
    let root = search_clone g in
    signed (same_color opts.color g.current_player) (
      if root.game_over
      then terminal_score root root.current_player opts.ply
      else finite (evaluate root.board root.current_player))

-- The score is the value to the depth that is reported, which is at most the one asked for; where that
-- depth is 0, no depth was searched to its end, and the score is the static one.
pub record IsExact (opts : Options) (g : Game) (r : SearchResult) : Type 0 where
  pub value : 1 ≤ r.depth → r.score ≡ value_at opts g r.depth
  pub at_rest : r.depth ≡ 0 → r.score ≡ static_score opts g
  pub within : r.depth ≤ opts.depth

finished-plain :
    (max_quiescence left ply : ℕ) (g : Game)
    → g.game_over ≡ true
    → plain_negamax max_quiescence left ply g ≡ terminal_score g g.current_player ply
unfolding plain_negamax
finished-plain max_quiescence zero ply g h = rw h refl
finished-plain max_quiescence (suc left) ply g h = rw h refl

module _ (opts : Options) (g : Game) where
  conclude-IsExact :
      (last : Bool) (d : ℕ) (prior : SearchResult)
      (go : List FullMove → ℕ → SearchResult → SearchResult) (found : Found)
      → IsExact opts g prior
      → 1 ≤ d
      → d ≤ opts.depth
      → ((pv : List FullMove) (n : ℕ) (r : SearchResult)
          → IsExact opts g r
          → IsExact opts g (go pv n r))
      → StandsFor neg_inf pos_inf
          (plain_negamax opts.max_quiescence (d + opts.max_quiescence) opts.ply (search_clone g))
          found
      → IsExact opts g (conclude (same_color opts.color g.current_player) last d prior go found)
  unfolding conclude
  conclude-IsExact last d prior go (nodes, none) p one h deeper s = record {
    value = p.value;
    at_rest = p.at_rest;
    within = p.within;
  }
  conclude-IsExact last d prior go (nodes, some (score, pv)) p one h deeper s =
      let same = same_color opts.color g.current_player in
      let e = ap (signed same) (exact score _ s) in
      if_ind (λ z. IsExact opts g z) (is_win_score (absolute score) && leb (length pv) d)
        (λ _. record { value = λ _. e; at_rest = λ z. absurd (omega (arith, one, z)); within = h })
        (λ _.
          deeper pv nodes _
            (record { value = λ _. e; at_rest = λ z. absurd (omega (arith, one, z)); within = h }))

  module _ (open_below : opts.alpha ≡ neg_inf) (open_above : opts.beta ≡ pos_inf) where
    lower_end : (same : Bool) → (if same then opts.alpha else neg_score opts.beta) ≡ neg_inf
    unfolding neg_score
    lower_end true = open_below
    lower_end false = ap neg_score open_above

    upper_end : (same : Bool) → (if same then opts.beta else neg_score opts.alpha) ≡ pos_inf
    unfolding neg_score
    upper_end true = open_above
    upper_end false = ap neg_score open_below

    deepen-IsExact :
        (rounds d : ℕ) (guide : List FullMove) (nodes : ℕ) (prior : SearchResult)
        → 1 ≤ d
        → d + rounds ≤ opts.depth + 1
        → IsExact opts g prior
        → IsExact opts g (
            deepen opts
              (same_color opts.color g.current_player)
              (search_clone g)
              rounds
              d
              guide
              nodes
              prior)
    unfolding deepen leb_score
    deepen-IsExact zero d guide nodes prior one h p = p
    deepen-IsExact (suc rounds) d guide nodes prior one h p =
        let same = same_color opts.color g.current_player in
        let run : Score → Score → Found = λ a b.
          negamax opts.node_budget opts.max_quiescence opts.ply guide (d + opts.max_quiescence)
            opts.ply a b nodes (search_clone g) in
        let value =
          plain_negamax opts.max_quiescence (d + opts.max_quiescence) opts.ply (search_clone g) in
        let below = if same then opts.alpha else neg_score opts.beta in
        let over = if same then opts.beta else neg_score opts.alpha in
        conclude-IsExact (rounds == 0) d prior _ (run below over) p one (omega arith)
          (λ pv n r q. deepen-IsExact rounds (d + 1) pv n r (omega arith) (omega arith) q)
          (subst (λ z. StandsFor neg_inf pos_inf value (run z over)) (sym (lower_end same))
            (subst (λ z. StandsFor neg_inf pos_inf value (run neg_inf z)) (sym (upper_end same))
              (negamax-StandsFor opts.node_budget opts.max_quiescence opts.ply guide
                (d + opts.max_quiescence) opts.ply neg_inf pos_inf nodes (search_clone g) refl)))

    -- With no window, a search that reports a depth of at least 1 reports the value of plain negamax, with
    -- quiescence and with no order of the moves, to that depth, from the view of the options' color; one that
    -- reports the depth 0, which was asked for or where the budget ended it in its first iteration, reports the
    -- static evaluation, or the terminal score of a game that is over; and the depth is at most the one asked
    -- for.
    pub search-IsExact : IsExact opts g (search g opts)
    unfolding search
    search-IsExact =
        let same = same_color opts.color g.current_player in
        let root = search_clone g in
        if_ind (λ z. IsExact opts g z) root.game_over
          (λ t. record {
            value = λ _. ap (signed same) (
                sym (
                  finished-plain opts.max_quiescence (opts.depth + opts.max_quiescence) opts.ply
                    root t));
            at_rest = λ _. ap (signed same) (
                sym (
                  ap
                    (λ z.
                      if z
                      then terminal_score root root.current_player opts.ply
                      else finite (evaluate root.board root.current_player))
                    t));
            within = omega arith;
          })
          (λ f. deepen-IsExact opts.depth 1 [] 0 _ (omega arith) (omega arith) (record {
            value = λ h. absurd (omega arith);
            at_rest = λ _. ap (signed same) (
                sym (
                  ap
                    (λ z.
                      if z
                      then terminal_score root root.current_player opts.ply
                      else finite (evaluate root.board root.current_player))
                    f));
            within = omega arith;
          }))
