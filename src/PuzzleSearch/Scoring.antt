-- ===== src/PuzzleSearch/Scoring.antt =====
-- What scoreMoves of shared/puzzleSearch.js makes of the moves it scores.
use purecheckers.Base.{
  ℕ, ◌+◌, ◌-◌, leb, ◌≡◌, refl, ap, sym, subst, ◌∙◌, ◌⊎◌, inl, inr, if_ind, Bool, true, false, ◌&&◌,
  if◌then◌else◌, Option, List, [], ◌∷◌, ◌++◌, ◌∈◌, ◌≤◌, map, arith, append_nil,
}
use purecheckers.Base.Int.{ℤ}
use purecheckers.Board.{Color, same_color}
use purecheckers.Game.{Game}
use purecheckers.Bot.Search.{Score, neg_inf}
use purecheckers.Bot.Value.{leb_score_total, leb_score_trans}
use purecheckers.PuzzleSearch.Turns.{FullMove, full_moves}
use purecheckers.PuzzleSearch.Negamax.{above}
use purecheckers.PuzzleSearch.Deepening.{
  Options, ScoredMove, Scores, search_after, score_from, score_moves, lower_bound, unsearched,
  scored_by, no_worse, insert_scored, sort_scored,
}
use purecheckers.PuzzleSearch.Budget.{score_moves-nodes}
use mathlib.Core.List.{Perm}
use mathlib.Core.List.Perm

abbrev moves_of : List ScoredMove → List FullMove
moves_of xs = map (λ a. a.move) xs

moves_of-append_one :
    (xs : List ScoredMove) (a : ScoredMove) (ms : List FullMove)
    → moves_of (xs ++ a ∷ []) ++ ms ≡ moves_of xs ++ a.move ∷ ms
moves_of-append_one [] a ms = refl
moves_of-append_one (x ∷ xs) a ms = ap (λ z. x.move ∷ z) (moves_of-append_one xs a ms)

score_from-moves :
    (opts : Options) (gap : Option ℤ) (mover : Color) (ms : List FullMove)
    (scored : List ScoredMove) (complete : Bool) (nodes : ℕ) (best : Score)
    → moves_of (score_from opts gap mover ms scored complete nodes best).0 ≡ moves_of scored ++ ms
unfolding score_from
score_from-moves opts gap mover [] scored complete nodes best = sym (append_nil (moves_of scored))
score_from-moves opts gap mover (m ∷ ms) scored complete nodes best =
    let same = same_color opts.color mover in
    let alpha = lower_bound gap best in
    let r = search_after opts mover alpha (opts.node_budget - nodes) m in
    if_ind {A = List ScoredMove × (Bool × ℕ)} (λ z. moves_of z.0 ≡ moves_of scored ++ m ∷ ms)
      (leb opts.node_budget nodes)
      (λ _.
        score_from-moves opts gap mover ms (scored ++ unsearched same m ∷ []) false nodes best
        ∙ moves_of-append_one scored (unsearched same m) ms)
      (λ _.
        score_from-moves opts gap mover ms (scored ++ scored_by same alpha m r ∷ [])
          (complete && r.complete) (nodes + r.nodes) (if above r.score best then r.score else best)
        ∙ moves_of-append_one scored (scored_by same alpha m r) ms)

insert_scored-Perm :
    (same : Bool) (a : ScoredMove) (xs : List ScoredMove)
    → Perm (moves_of (insert_scored same a xs)) (a.move ∷ moves_of xs)
unfolding insert_scored
insert_scored-Perm same a [] = Perm.rfl
insert_scored-Perm same a (b ∷ bs) =
    if_ind (λ z. Perm (moves_of z) (a.move ∷ b.move ∷ moves_of bs)) (no_worse same a b)
      (λ _. Perm.rfl)
      (λ _.
        Perm.trans (Perm.cons b.move (insert_scored-Perm same a bs))
          (Perm.swap a.move b.move (moves_of bs)))

sort_scored-Perm :
    (same : Bool) (xs : List ScoredMove) → Perm (moves_of (sort_scored same xs)) (moves_of xs)
unfolding sort_scored
sort_scored-Perm same [] = Perm.rfl
sort_scored-Perm same (a ∷ xs) =
    Perm.trans (insert_scored-Perm same a (sort_scored same xs))
      (Perm.cons a.move (sort_scored-Perm same xs))

-- Each move has one before it only where that one's score is at least as good.
abbrev pub IsSorted : Bool → List ScoredMove → Type 0
IsSorted same [] = true ≡ true
IsSorted same (a ∷ xs) = ((b : ScoredMove) → b ∈ xs → no_worse same a b ≡ true) × IsSorted same xs

no_worse_trans :
    (same : Bool) (a b c : ScoredMove)
    → no_worse same a b ≡ true
    → no_worse same b c ≡ true
    → no_worse same a c ≡ true
no_worse_trans true a b c h k = leb_score_trans c.score b.score a.score k h
no_worse_trans false a b c h k = leb_score_trans a.score b.score c.score h k

no_worse_total :
    (same : Bool) (a b : ScoredMove) → no_worse same a b ≡ false → no_worse same b a ≡ true
no_worse_total true a b h = elim (leb_score_total b.score a.score) [
  | inl k ↦ absurd (ground (arith, h, k))
  | inr k ↦ k
]
no_worse_total false a b h = elim (leb_score_total a.score b.score) [
  | inl k ↦ absurd (ground (arith, h, k))
  | inr k ↦ k
]

insert_scored-mem :
    (same : Bool) (a : ScoredMove) (xs : List ScoredMove) (c : ScoredMove)
    → c ∈ insert_scored same a xs
    → (c ≡ a) ⊎ (c ∈ xs)
unfolding insert_scored
insert_scored-mem same a [] c (inl e) = inl e
insert_scored-mem same a [] c (inr k) = inr k
insert_scored-mem same a (b ∷ bs) c h =
    if_ind (λ z. c ∈ z → (c ≡ a) ⊎ (c ∈ b ∷ bs)) (no_worse same a b)
      (λ _ k. elim k [ inl e ↦ inl e | inr i ↦ inr i ])
      (λ _ k. elim k [
        | inl e ↦ inr (inl e)
        | inr i ↦ elim (insert_scored-mem same a bs c i) [ inl e ↦ inl e | inr j ↦ inr (inr j) ]
      ])
      h

insert_scored-IsSorted :
    (same : Bool) (a : ScoredMove) (xs : List ScoredMove)
    → IsSorted same xs
    → IsSorted same (insert_scored same a xs)
unfolding insert_scored
insert_scored-IsSorted same a [] s = (λ b k. absurd k, refl)
insert_scored-IsSorted same a (b ∷ bs) (first, rest) =
    if_ind (λ z. IsSorted same z) (no_worse same a b)
      (λ t. (
        λ c k. elim k [
          | inl e ↦ subst (λ z. no_worse same a z ≡ true) (sym e) t
          | inr i ↦ no_worse_trans same a b c t (first c i)
        ],
        (first, rest),
      ))
      (λ f. (
        λ c k. elim (insert_scored-mem same a bs c k) [
          | inl e ↦ subst (λ z. no_worse same b z ≡ true) (sym e) (no_worse_total same a b f)
          | inr i ↦ first c i
        ],
        insert_scored-IsSorted same a bs rest,
      ))

sort_scored-IsSorted : (same : Bool) (xs : List ScoredMove) → IsSorted same (sort_scored same xs)
unfolding sort_scored
sort_scored-IsSorted same [] = refl
sort_scored-IsSorted same (a ∷ xs) =
    insert_scored-IsSorted same a (sort_scored same xs) (sort_scored-IsSorted same xs)

pub record IsScored (g : Game) (opts : Options) (s : Scores) : Type 0 where
  pub each_move : Perm (moves_of s.scored) (full_moves g)
  pub counted : s.nodes ≤ opts.node_budget + 1
  pub best_first : IsSorted (same_color opts.color g.current_player) s.scored

-- scoreMoves has one entry for each turn of the side to move, those that its budget leaves unsearched
-- too, puts them in the order of their scores, the best for `color` first, and looks at one node more
-- than its budget at most, however many turns there are.
pub score_moves-IsScored :
    (g : Game) (opts : Options) (gap : Option ℤ) → IsScored g opts (score_moves g opts gap)
unfolding score_moves
score_moves-IsScored g opts gap =
    let same = same_color opts.color g.current_player in
    let ms = full_moves g in
    let scored = (score_from opts gap g.current_player ms [] true 0 neg_inf).0 in
    record {
      each_move =
          subst (λ z. Perm (moves_of (sort_scored same scored)) z)
            (score_from-moves opts gap g.current_player ms [] true 0 neg_inf)
            (sort_scored-Perm same scored);
      counted = score_moves-nodes g opts gap;
      best_first = sort_scored-IsSorted same scored;
    }
