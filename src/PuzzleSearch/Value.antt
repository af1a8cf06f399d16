-- ===== src/PuzzleSearch/Value.antt =====
-- What the scores of negamax of shared/puzzleSearch.js say of plain negamax, when its budget lasts.
use purecheckers.Base.{
  ℕ, zero, suc, ◌+◌, ◌-◌, leb, ltb, ◌≡◌, refl, ap, sym, subst, ◌∙◌, inl, inr, if_ind, if_both, true,
  false, not, ◌&&◌, if◌then◌else◌, none, some, List, [], ◌∷◌, arith,
}
use purecheckers.Base.Int.{ℤ, ◌-ℤ◌, leb_ℤ}
use purecheckers.Game.{Game}
use purecheckers.Bot.Pruning.{Stands, Knows, better, le_refl, cut, go_on}
use purecheckers.Bot.Search.{Score, neg_inf, finite, pos_inf, leb_score}
use purecheckers.Bot.Value.{
  leb_score_total, leb_score_trans, leb_score_antisym, neg_inf-least, refl-Stands,
}
use purecheckers.PuzzleSearch.Turns.{FullMove, full_moves}
use purecheckers.PuzzleSearch.Negamax.{
  Found, negated, neg_score, above, has_captures, lost_score, order_of, sort_moves, weigh,
  scan_moves, guide_at, or_lost, negamax,
}
use purecheckers.PuzzleSearch.Plain.{
  greatest, value_or_lost, plain_negamax, greatest-sort_moves, le_greatest,
}

negated-negated : (a : ℤ) → negated (negated a) ≡ a
unfolding ◌-ℤ◌
negated-negated a = ground arith

leb_ℤ-negated : (a b : ℤ) → leb_ℤ (negated a) (negated b) ≡ leb_ℤ b a
unfolding ◌-ℤ◌
leb_ℤ-negated a b = ground arith

neg_score-neg_score : (a : Score) → neg_score (neg_score a) ≡ a
unfolding neg_score
neg_score-neg_score neg_inf = refl
neg_score-neg_score (finite a) = ap finite (negated-negated a)
neg_score-neg_score pos_inf = refl

neg_score_flip : (a b : Score) → leb_score (neg_score a) (neg_score b) ≡ leb_score b a
unfolding neg_score leb_score
neg_score_flip neg_inf neg_inf = refl
neg_score_flip neg_inf (finite b) = refl
neg_score_flip neg_inf pos_inf = refl
neg_score_flip (finite a) neg_inf = refl
neg_score_flip (finite a) (finite b) = leb_ℤ-negated a b
neg_score_flip (finite a) pos_inf = refl
neg_score_flip pos_inf neg_inf = refl
neg_score_flip pos_inf (finite b) = refl
neg_score_flip pos_inf pos_inf = refl

flip_left : (a b : Score) → leb_score (neg_score a) b ≡ true → leb_score (neg_score b) a ≡ true
flip_left a b h =
    ap (λ z. leb_score (neg_score b) z) (sym (neg_score-neg_score a))
    ∙ neg_score_flip b (neg_score a)
    ∙ h

flip_right : (a b : Score) → leb_score a (neg_score b) ≡ true → leb_score b (neg_score a) ≡ true
flip_right a b h =
    ap (λ z. leb_score z (neg_score a)) (sym (neg_score-neg_score b))
    ∙ neg_score_flip (neg_score b) a
    ∙ h

-- The opponent's score within the opponent's window.
neg_score-Stands :
    (alpha beta r v : Score)
    → Stands leb_score (neg_score beta) (neg_score alpha) r v
    → Stands leb_score alpha beta (neg_score r) (neg_score v)
neg_score-Stands alpha beta r v s = record {
  upper = elim s.lower [ inl h ↦ inl (neg_score_flip v r ∙ h) | inr h ↦ inr (flip_right r beta h) ];
  lower = elim s.upper [ inl h ↦ inl (neg_score_flip r v ∙ h) | inr h ↦ inr (flip_left alpha r h) ];
}

above-better : (a b : Score) → (if above b a then b else a) ≡ better leb_score a b
unfolding better
above-better a b = elim (leb_score_total a b) [
  | inl h ↦
      if_ind (λ z. z ≡ better leb_score a b) (above b a) (λ _. rw h refl)
        (λ f. leb_score_antisym a (better leb_score a b) (rw h h) (rw h (ground (arith, f))))
  | inr h ↦
      if_ind (λ z. z ≡ better leb_score a b) (above b a) (λ t. absurd (ground (arith, t, h)))
        (λ _. if_ind (λ z. a ≡ z) (leb_score a b) (λ k. leb_score_antisym a b k h) (λ _. refl))
]

-- A search that was stopped says nothing, any other stands for `v` within its window.
abbrev pub StandsFor : Score → Score → Score → Found → Type 0
StandsFor alpha beta v (nodes, none) = true ≡ true
StandsFor alpha beta v (nodes, some (r, line)) = Stands leb_score alpha beta r v

-- The loop stands for the greatest of its values, `rest`, if what it does after this move does.
module _ (alpha0 alpha beta best w v rest : Score)
    (k : Knows leb_score leb_score_total leb_score_trans alpha0 alpha beta best w) where
  weigh-StandsFor :
      (m : FullMove) (pv : List FullMove) (go : Score → Score → List FullMove → ℕ → Found)
      (found : Found)
      → leb_score (better leb_score w (neg_score v)) rest ≡ true
      → ((a e : Score) (line : List FullMove) (n : ℕ)
          → Knows leb_score leb_score_total leb_score_trans alpha0 a beta e
              (better leb_score w (neg_score v))
          → StandsFor alpha0 beta rest (go a e line n))
      → StandsFor (neg_score beta) (neg_score alpha) v found
      → StandsFor alpha0 beta rest (weigh m alpha beta best pv go found)
  unfolding weigh
  weigh-StandsFor m pv go (nodes, none) le deeper visited = refl
  weigh-StandsFor m pv go (nodes, some (below, line)) le deeper visited =
      let score = neg_score below in
      let st = neg_score-Stands alpha beta below v visited in
      let best' = if above score best then score else best in
      let best_eq : better leb_score best score ≡ best' = sym (above-better best score) in
      let next : (a : Score)
          → better leb_score alpha score ≡ a
          → leb_score beta a ≡ false
          → Knows leb_score leb_score_total leb_score_trans alpha0 a beta best'
              (better leb_score w (neg_score v)) =
        λ a q h.
          subst
            (λ z.
              Knows leb_score leb_score_total leb_score_trans alpha0 a beta z
                (better leb_score w (neg_score v)))
            best_eq
            (subst
              (λ z.
                Knows leb_score leb_score_total leb_score_trans alpha0 z beta
                  (better leb_score best score) (better leb_score w (neg_score v)))
              q
              (go_on leb_score leb_score_total leb_score_trans alpha0 alpha beta best w score
                (neg_score v) k st (ap (λ z. leb_score beta z) q ∙ h))) in
      if_ind (λ z. StandsFor alpha0 beta rest z) (above score alpha)
        (λ t.
          let q : better leb_score alpha score ≡ score =
            sym (above-better alpha score) ∙ ap (λ z. if z then score else alpha) t in
          if_ind (λ z. StandsFor alpha0 beta rest z) (leb_score beta score)
            (λ h.
              subst (λ z. Stands leb_score alpha0 beta z rest) best_eq
                (cut leb_score leb_score_total leb_score_trans alpha0 alpha beta best w score
                  (neg_score v) k st rest (ap (λ z. leb_score beta z) q ∙ h) le))
            (λ h. deeper score best' (m ∷ line) nodes (next score q h)))
        (λ f.
          let q : better leb_score alpha score ≡ alpha =
            sym (above-better alpha score) ∙ ap (λ z. if z then score else alpha) f in
          deeper alpha best' pv nodes (next alpha q k.window))

scan_moves-StandsFor :
    (visit : Score → Score → ℕ → FullMove → Found) (value : FullMove → Score)
    → ((a b : Score) (n : ℕ) (m : FullMove)
        → leb_score b a ≡ false
        → StandsFor a b (value m) (visit a b n m))
    → (ms : List FullMove) (alpha0 alpha beta best w : Score) (pv : List FullMove) (nodes : ℕ)
    → Knows leb_score leb_score_total leb_score_trans alpha0 alpha beta best w
    → StandsFor alpha0 beta
        (greatest (λ m. neg_score (value m)) ms w)
        (scan_moves visit ms alpha beta best pv nodes)
unfolding scan_moves greatest
scan_moves-StandsFor visit value stands [] alpha0 alpha beta best w pv nodes k = record {
  upper = inl k.above;
  lower = k.below;
}
scan_moves-StandsFor visit value stands (m ∷ ms) alpha0 alpha beta best w pv nodes k =
    let w' = better leb_score w (neg_score (value m)) in
    weigh-StandsFor alpha0 alpha beta best w (value m) (greatest (λ x. neg_score (value x)) ms w') k
      m pv _ (visit (neg_score beta) (neg_score alpha) nodes m)
      (le_greatest (λ x. neg_score (value x)) ms w')
      (λ a e line n next. scan_moves-StandsFor visit value stands ms alpha0 a beta e w' line n next)
      (stands (neg_score beta) (neg_score alpha) nodes m (neg_score_flip alpha beta ∙ k.window))

or_lost-StandsFor :
    (alpha beta : Score) (ply nodes : ℕ) (ms : List FullMove) (go : List FullMove → Found)
    (deeper : List FullMove → Score)
    → ((xs : List FullMove) → StandsFor alpha beta (deeper xs) (go xs))
    → StandsFor alpha beta (value_or_lost ply ms deeper) (or_lost ply nodes ms go)
or_lost-StandsFor alpha beta ply nodes [] go deeper s = refl-Stands alpha beta (lost_score ply)
or_lost-StandsFor alpha beta ply nodes (m ∷ ms) go deeper s = s (m ∷ ms)

-- Before its first move.
opening :
    (alpha beta : Score)
    → leb_score beta alpha ≡ false
    → Knows leb_score leb_score_total leb_score_trans alpha alpha beta neg_inf neg_inf
opening alpha beta h = record {
  first_le = le_refl leb_score leb_score_total leb_score_trans alpha;
  best_le = neg_inf-least alpha;
  least = λ c p q. p;
  window = h;
  above = neg_inf-least neg_inf;
  below = inl (neg_inf-least neg_inf);
}

-- The loop over the sorted moves stands for the greatest value of the moves as they are listed.
level-StandsFor :
    (visit : Score → Score → ℕ → FullMove → Found) (value : FullMove → Score)
    → ((a b : Score) (n : ℕ) (m : FullMove)
        → leb_score b a ≡ false
        → StandsFor a b (value m) (visit a b n m))
    → (order : FullMove → ℤ) (ms : List FullMove) (alpha beta : Score) (nodes : ℕ)
    → leb_score beta alpha ≡ false
    → StandsFor alpha beta
        (greatest (λ m. neg_score (value m)) ms neg_inf)
        (scan_moves visit (sort_moves order ms) alpha beta neg_inf [] nodes)
level-StandsFor visit value stands order ms alpha beta nodes h =
    subst
      (λ z.
        StandsFor alpha beta z (scan_moves visit (sort_moves order ms) alpha beta neg_inf [] nodes))
      (greatest-sort_moves (λ m. neg_score (value m)) order ms neg_inf)
      (scan_moves-StandsFor visit value stands (sort_moves order ms) alpha alpha beta neg_inf
        neg_inf [] nodes (opening alpha beta h))

module _ (budget max_quiescence root_ply : ℕ) (guide : List FullMove) where
  -- Within a window that is not closed, what negamax finds before its budget is out stands for the
  -- value of plain negamax.
  pub negamax-StandsFor :
      (left ply : ℕ) (alpha beta : Score) (nodes : ℕ) (g : Game)
      → leb_score beta alpha ≡ false
      → StandsFor alpha beta
          (plain_negamax max_quiescence left ply g)
          (negamax budget max_quiescence root_ply guide left ply alpha beta nodes g)
  unfolding negamax plain_negamax
  negamax-StandsFor zero ply alpha beta nodes g h =
      if_ind (λ z. StandsFor alpha beta (plain_negamax max_quiescence zero ply g) z)
        (ltb budget (nodes + 1)) (λ _. refl)
        (λ _.
          if_both g.game_over (λ s f. StandsFor alpha beta s f) (refl-Stands alpha beta _)
            (refl-Stands alpha beta _))
  negamax-StandsFor (suc left) ply alpha beta nodes g h =
      let order = order_of g.current_player (guide_at guide (ply - root_ply)) in
      let value : FullMove → Score = λ m. plain_negamax max_quiescence left (ply + 1) m.after in
      if_ind (λ z. StandsFor alpha beta (plain_negamax max_quiescence (suc left) ply g) z)
        (ltb budget (nodes + 1)) (λ _. refl)
        (λ _.
          if_both g.game_over (λ s f. StandsFor alpha beta s f) (refl-Stands alpha beta _)
            (if_both (leb (suc left) max_quiescence && not (has_captures g))
              (λ s f. StandsFor alpha beta s f) (refl-Stands alpha beta _)
              (or_lost-StandsFor alpha beta ply (nodes + 1) (full_moves g) _ _ (λ xs.
                level-StandsFor
                  (λ a b n m.
                    negamax budget max_quiescence root_ply guide left (ply + 1) a b n m.after)
                  value (λ a b n m k. negamax-StandsFor left (ply + 1) a b n m.after k) order xs
                  alpha beta (nodes + 1) h))))
