-- ===== src/QuickPlay/Total.antt =====
-- Pairing loses nobody and pairs nobody twice: every sum over the players is split between those who
-- wait on and the pairs.
use purecheckers.Base.{
  ℕ, ◌+◌, ◌≡◌, refl, sym, ap, subst, inl, inr, ◌≢◌, false, if◌then◌else◌, List, [], ◌∷◌, ◌++◌, ◌∈◌,
  map, arith,
}
use purecheckers.QuickPlay.Passes.{
  Above, Above-mem, Distinct, indexed-Distinct, Keeps, matching-keeps,
}
use purecheckers.QuickPlay.{
  Entry, Pool, Pair, Matching, is_matched, indexed, unmatched, matching, entry_of, try_match,
}

unmatched_after :
    (i j : ℕ) (matched : List ℕ)
    → i ≢ j
    → is_matched matched j ≡ false
    → is_matched (i ∷ matched) j ≡ false
unfolding is_matched
unmatched_after i j matched ne h = ground arith

module _ (f : Entry → ℕ) where
  unfoldable pub total : List Entry → ℕ
  total [] = 0
  total (p ∷ ps) = f p + total ps

  unfoldable pub pairs_total : List Pair → ℕ
  pairs_total [] = 0
  pairs_total (p ∷ ps) = f p.a + f p.b + pairs_total ps

  pairs_total-append :
      (ps : List Pair) (p : Pair) → pairs_total (ps ++ p ∷ []) ≡ pairs_total ps + f p.a + f p.b
  unfolding pairs_total
  pairs_total-append [] p = omega arith
  pairs_total-append (q ∷ ps) p = omega (arith, pairs_total-append ps p)

  unfoldable rest_total : List ℕ → List (ℕ × Entry) → ℕ
  rest_total matched [] = 0
  rest_total matched ((i, p) ∷ ps) =
      (if is_matched matched i then 0 else f p) + rest_total matched ps

  rest-Above :
      (i : ℕ) (matched : List ℕ) (ps : List (ℕ × Entry))
      → Above i ps
      → rest_total (i ∷ matched) ps ≡ rest_total matched ps
  unfolding rest_total is_matched
  rest-Above i matched [] h = refl
  rest-Above i matched ((j, p) ∷ ps) h = ground (arith, rest-Above i matched ps h.1)

  -- One player more is matched.
  rest-mem :
      (i : ℕ) (a : Entry) (matched : List ℕ) (ps : List (ℕ × Entry))
      → Distinct ps
      → (i, a) ∈ ps
      → is_matched matched i ≡ false
      → rest_total matched ps ≡ f a + rest_total (i ∷ matched) ps
  unfolding rest_total is_matched
  rest-mem i a matched [] d m h = absurd m
  rest-mem i a matched ((j, p) ∷ ps) d (inl e) h =
      let same : i ≡ j = ap (λ z. z.0) e in
      let too : a ≡ p = ap (λ z. z.1) e in
      let rest = rest-Above i matched ps (subst (λ z. Above z ps) (sym same) d.0) in
      let value : f a ≡ f p = ap f too in ground (arith, rest, value, same)
  rest-mem i a matched ((j, p) ∷ ps) d (inr m) h =
      let other = Above-mem j i a ps d.0 m in ground (arith, rest-mem i a matched ps d.1 m h)

  rest-indexed : (i : ℕ) (es : List Entry) → rest_total [] (indexed i es) ≡ total es
  unfolding rest_total is_matched indexed total
  rest-indexed i [] = refl
  rest-indexed i (e ∷ es) = ground (arith, rest-indexed (i + 1) es)

  rest-unmatched :
      (matched : List ℕ) (ps : List (ℕ × Entry))
      → total (map entry_of (unmatched matched ps)) ≡ rest_total matched ps
  unfolding rest_total unmatched total
  rest-unmatched matched [] = refl
  rest-unmatched matched ((i, p) ∷ ps) = ground (arith, rest-unmatched matched ps)

  Split : List (ℕ × Entry) → ℕ → Matching → Type 0
  Split all sum m = rest_total m.matched all + pairs_total m.pairs ≡ sum

  begun :
      (all : List (ℕ × Entry)) (sum : ℕ)
      → rest_total [] all ≡ sum
      → Split all sum (record { matched = []; pairs = [] })
  unfolding Split pairs_total
  begun all sum e = omega (arith, e)

  ended :
      (all : List (ℕ × Entry)) (sum : ℕ) (m : Matching)
      → Split all sum m
      → rest_total m.matched all + pairs_total m.pairs ≡ sum
  unfolding Split
  ended all sum m h = h

  Split-Keeps :
      (now : ℕ) (all : List (ℕ × Entry)) (sum : ℕ) → Distinct all → Keeps (Split all sum) now all
  unfolding Split
  Split-Keeps now all sum d = record {
    pair = λ mode i j a b m ma mb ne fi fj match h.
        let one = rest-mem i a m.matched all d ma fi in
        let two = rest-mem j b (i ∷ m.matched) all d mb (unmatched_after i j m.matched ne fj) in
        omega (arith, pairs_total-append m.pairs (record { a = a; b = b; mode = mode }));
  }

  -- Whatever is summed over the players of a pool: what the pool had is what the players who wait on
  -- have, and what the pairs have.
  pub total-try_match :
      (p : Pool) (now : ℕ)
      → total p.players ≡ total (try_match p now).0.players + pairs_total (try_match p now).1
  unfolding try_match
  total-try_match p now =
      let all = indexed 0 p.players in
      let m = matching now all in
      let d = indexed-Distinct 0 p.players in
      let start : Split all (total p.players) (record { matched = []; pairs = [] }) =
        begun all (total p.players) (rest-indexed 0 p.players) in
      let split = ended all (total p.players) m (
        matching-keeps (Split all (total p.players)) now all
          (Split-Keeps now all (total p.players) d) d start) in
      omega (arith, rest-unmatched m.matched all, split)
