-- ===== src/PuzzleSearch/Budget.antt =====
-- How many nodes negamax, search and scoreMoves of shared/puzzleSearch.js look at.
use purecheckers.Base.{
  ℕ, zero, suc, ◌+◌, ◌-◌, ◌≤◌, leb, ltb, ◌==◌, ◌≡◌, refl, if_ind, Bool, true, false, not, ◌&&◌,
  if◌then◌else◌, Option, none, some, List, [], ◌∷◌, ◌++◌, arith, length,
}
use purecheckers.Base.Int.{ℤ}
use purecheckers.Board.{Color, same_color}
use purecheckers.Game.{Game}
use purecheckers.Bot.Search.{Score, neg_inf, leb_score}
use purecheckers.PuzzleSearch.Position.{search_clone}
use purecheckers.PuzzleSearch.Turns.{FullMove, full_moves}
use purecheckers.PuzzleSearch.Negamax.{
  Found, neg_score, above, has_captures, is_win_score, order_of, sort_moves, weigh, scan_moves,
  guide_at, or_lost, negamax,
}
use purecheckers.PuzzleSearch.Deepening.{
  Options, SearchResult, ScoredMove, absolute, conclude, deepen, search, score_from, search_after,
  score_moves, lower_bound, unsearched, scored_by,
}

-- A search that the budget stopped has gone one node past it, any other has not.
abbrev pub WithinBudget : ℕ → Found → Type 0
WithinBudget budget (nodes, none) = nodes ≤ budget + 1
WithinBudget budget (nodes, some below) = nodes ≤ budget

weigh-WithinBudget :
    (budget : ℕ) (m : FullMove) (alpha beta best : Score) (pv : List FullMove)
    (go : Score → Score → List FullMove → ℕ → Found) (found : Found)
    → ((a e : Score) (line : List FullMove) (n : ℕ)
        → n ≤ budget
        → WithinBudget budget (go a e line n))
    → WithinBudget budget found
    → WithinBudget budget (weigh m alpha beta best pv go found)
unfolding weigh
weigh-WithinBudget budget m alpha beta best pv go (nodes, none) keeps within = within
weigh-WithinBudget budget m alpha beta best pv go (nodes, some (below, line)) keeps within =
    let score = neg_score below in
    let best' = if above score best then score else best in
    if_ind (λ z. WithinBudget budget z) (above score alpha)
      (λ _.
        if_ind (λ z. WithinBudget budget z) (leb_score beta score) (λ _. within)
          (λ _. keeps score best' (m ∷ line) nodes within))
      (λ _. keeps alpha best' pv nodes within)

scan_moves-WithinBudget :
    (budget : ℕ) (visit : Score → Score → ℕ → FullMove → Found)
    → ((a b : Score) (n : ℕ) (m : FullMove) → n ≤ budget → WithinBudget budget (visit a b n m))
    → (ms : List FullMove) (alpha beta best : Score) (pv : List FullMove) (nodes : ℕ)
    → nodes ≤ budget
    → WithinBudget budget (scan_moves visit ms alpha beta best pv nodes)
unfolding scan_moves
scan_moves-WithinBudget budget visit keeps [] alpha beta best pv nodes h = h
scan_moves-WithinBudget budget visit keeps (m ∷ ms) alpha beta best pv nodes h =
    weigh-WithinBudget budget m alpha beta best pv
      (λ a e line n. scan_moves visit ms a beta e line n)
      (visit (neg_score beta) (neg_score alpha) nodes m)
      (λ a e line n k. scan_moves-WithinBudget budget visit keeps ms a beta e line n k)
      (keeps (neg_score beta) (neg_score alpha) nodes m h)

or_lost-WithinBudget :
    (budget ply nodes : ℕ) (ms : List FullMove) (go : List FullMove → Found)
    → nodes ≤ budget
    → ((xs : List FullMove) → WithinBudget budget (go xs))
    → WithinBudget budget (or_lost ply nodes ms go)
or_lost-WithinBudget budget ply nodes [] go h k = h
or_lost-WithinBudget budget ply nodes (m ∷ ms) go h k = k (m ∷ ms)

negamax-WithinBudget :
    (budget max_quiescence root_ply : ℕ) (guide : List FullMove) (left ply : ℕ) (alpha beta : Score)
    (nodes : ℕ) (g : Game)
    → nodes ≤ budget
    → WithinBudget budget (negamax budget max_quiescence root_ply guide left ply alpha beta nodes g)
unfolding negamax
negamax-WithinBudget budget max_quiescence root_ply guide zero ply alpha beta nodes g h =
    if_ind (λ z. WithinBudget budget z) (ltb budget (nodes + 1)) (λ _. omega arith)
      (λ f.
        if_ind (λ z. WithinBudget budget z) g.game_over (λ _. ground (arith, f))
          (λ _. ground (arith, f)))
negamax-WithinBudget budget max_quiescence root_ply guide (suc left) ply alpha beta nodes g h =
    if_ind (λ z. WithinBudget budget z) (ltb budget (nodes + 1)) (λ _. omega arith)
      (λ f.
        let fits : nodes + 1 ≤ budget = ground (arith, f) in
        if_ind (λ z. WithinBudget budget z) g.game_over (λ _. fits)
          (λ _.
            if_ind (λ z. WithinBudget budget z)
              (leb (suc left) max_quiescence && not (has_captures g)) (λ _. fits)
              (λ _. or_lost-WithinBudget budget ply (nodes + 1) (full_moves g) _ fits (λ xs.
                scan_moves-WithinBudget budget
                  (λ a b n m.
                    negamax budget max_quiescence root_ply guide left (ply + 1) a b n m.after)
                  (λ a b n m k.
                    negamax-WithinBudget budget max_quiescence root_ply guide left (ply + 1) a b n
                      m.after k)
                  (sort_moves (order_of g.current_player (guide_at guide (ply - root_ply))) xs)
                  alpha beta neg_inf [] (nodes + 1) fits))))

-- What a search reports within its budget.
pub record IsBudgeted (budget : ℕ) (r : SearchResult) : Type 0 where
  pub counted : r.nodes ≤ budget + 1
  pub unstopped : r.aborted ≡ false → 1 ≤ budget → r.nodes ≤ budget
  pub unfinished : r.aborted ≡ true → r.complete ≡ false

-- A result that a search keeps while it goes on, with `rounds` iterations left.
record IsOpen (budget rounds : ℕ) (r : SearchResult) : Type 0 where
  fits : r.nodes ≤ budget
  going : r.aborted ≡ false
  ends : r.complete ≡ true → rounds ≡ 0

IsOpen-IsBudgeted :
    (budget rounds : ℕ) (r : SearchResult) → IsOpen budget rounds r → IsBudgeted budget r
IsOpen-IsBudgeted budget rounds r o = record {
  counted = ground (arith, o.fits);
  unstopped = λ _ _. o.fits;
  unfinished = λ a. absurd (ground (arith, a, o.going));
}

open_incomplete :
    (budget rounds : ℕ) (r : SearchResult) (b : Bool)
    → IsOpen budget (suc rounds) r
    → r.complete ≡ b
    → b ≡ false
open_incomplete budget rounds r false o e = refl
open_incomplete budget rounds r true o e = absurd (ground (arith, o.ends e))

last_round : (rounds : ℕ) → (rounds == 0) ≡ true → rounds ≡ 0
last_round rounds h = ground arith

conclude-IsBudgeted :
    (budget rounds : ℕ) (same : Bool) (d : ℕ) (prior : SearchResult)
    (go : List FullMove → ℕ → SearchResult → SearchResult) (found : Found)
    → IsOpen budget (suc rounds) prior
    → ((pv : List FullMove) (n : ℕ) (r : SearchResult)
        → n ≤ budget
        → IsOpen budget rounds r
        → IsBudgeted budget (go pv n r))
    → WithinBudget budget found
    → IsBudgeted budget (conclude same (rounds == 0) d prior go found)
unfolding conclude
conclude-IsBudgeted budget rounds same d prior go (nodes, none) o deeper within = record {
  counted = within;
  unstopped = λ a. absurd (ground (arith, a));
  unfinished = λ _. open_incomplete budget rounds prior prior.complete o refl;
}
conclude-IsBudgeted budget rounds same d prior go (nodes, some (score, pv)) o deeper within =
    if_ind (λ z. IsBudgeted budget z) (is_win_score (absolute score) && leb (length pv) d)
      (λ _. record {
        counted = ground (arith, within);
        unstopped = λ _ _. within;
        unfinished = λ a. absurd (ground (arith, a));
      })
      (λ _.
        deeper pv nodes _ within (record { fits = within; going = refl; ends = last_round rounds }))

deepen-IsBudgeted :
    (opts : Options) (same : Bool) (root : Game) (rounds d : ℕ) (guide : List FullMove) (nodes : ℕ)
    (prior : SearchResult)
    → nodes ≤ opts.node_budget
    → IsOpen opts.node_budget rounds prior
    → IsBudgeted opts.node_budget (deepen opts same root rounds d guide nodes prior)
unfolding deepen
deepen-IsBudgeted opts same root zero d guide nodes prior h o =
    IsOpen-IsBudgeted opts.node_budget zero prior o
deepen-IsBudgeted opts same root (suc rounds) d guide nodes prior h o =
    conclude-IsBudgeted opts.node_budget rounds same d prior _ _ o
      (λ pv n r k p. deepen-IsBudgeted opts same root rounds (d + 1) pv n r k p)
      (negamax-WithinBudget opts.node_budget opts.max_quiescence opts.ply guide
        (d + opts.max_quiescence) opts.ply (if same then opts.alpha else neg_score opts.beta)
        (if same then opts.beta else neg_score opts.alpha) nodes root h)

-- A search looks at one node more than its budget at most. If it was not stopped and the budget is
-- not 0, it stays within the budget, and if it was stopped it does not say that it is complete.
pub search-IsBudgeted : (g : Game) (opts : Options) → IsBudgeted opts.node_budget (search g opts)
unfolding search
search-IsBudgeted g opts =
    if_ind (λ z. IsBudgeted opts.node_budget z) (search_clone g).game_over
      (λ _. record {
        counted = omega arith;
        unstopped = λ _ h. h;
        unfinished = λ a. absurd (ground (arith, a));
      })
      (λ _.
        deepen-IsBudgeted opts (same_color opts.color g.current_player) (search_clone g) opts.depth
          1 [] 0 _ (omega arith)
          (record { fits = omega arith; going = refl; ends = λ a. absurd (ground (arith, a)) }))

remaining_nodes :
    (budget nodes more : ℕ)
    → leb budget nodes ≡ false
    → more ≤ budget - nodes + 1
    → nodes + more ≤ budget + 1
remaining_nodes budget nodes more h k = ground arith

score_from-nodes :
    (opts : Options) (gap : Option ℤ) (mover : Color) (ms : List FullMove)
    (scored : List ScoredMove) (complete : Bool) (nodes : ℕ) (best : Score)
    → nodes ≤ opts.node_budget + 1
    → (score_from opts gap mover ms scored complete nodes best).1.1 ≤ opts.node_budget + 1
unfolding score_from search_after
score_from-nodes opts gap mover [] scored complete nodes best h = h
score_from-nodes opts gap mover (m ∷ ms) scored complete nodes best h =
    let same = same_color opts.color mover in
    let alpha = lower_bound gap best in
    let r = search_after opts mover alpha (opts.node_budget - nodes) m in
    if_ind {A = List ScoredMove × (Bool × ℕ)} (λ z. z.1.1 ≤ opts.node_budget + 1)
      (leb opts.node_budget nodes)
      (λ _.
        score_from-nodes opts gap mover ms (scored ++ unsearched same m ∷ []) false nodes best h)
      (λ f.
        score_from-nodes opts gap mover ms (scored ++ scored_by same alpha m r ∷ [])
          (complete && r.complete) (nodes + r.nodes) (if above r.score best then r.score else best)
          (remaining_nodes opts.node_budget nodes r.nodes f (search-IsBudgeted m.after _).counted))

-- However many moves there are to score, scoreMoves looks at one node more than its budget at most.
pub score_moves-nodes :
    (g : Game) (opts : Options) (gap : Option ℤ)
    → (score_moves g opts gap).nodes ≤ opts.node_budget + 1
unfolding score_moves
score_moves-nodes g opts gap =
    score_from-nodes opts gap g.current_player (full_moves g) [] true 0 neg_inf (omega arith)
