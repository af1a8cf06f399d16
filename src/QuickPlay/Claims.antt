-- ===== src/QuickPlay/Claims.antt =====
-- The pairs that the pool makes, and the claims that it holds for them.
use purecheckers.Base.{
  ℕ, ◌+◌, ◌≤◌, ◌≡◌, refl, sym, ap, subst, ◌⊎◌, inl, inr, ◌==◌, Bool-cases, Option, some, List, [],
  ◌∷◌, ◌∈◌, map, append-mem, arith,
}
use purecheckers.QuickPlay.{
  Entry, Pool, Pair, Matching, indexed, set_claim, claim_all, try_match, entry_of,
}
use purecheckers.QuickPlay.Passes.{IsMatch, Keeps, matching-keeps, indexed-Distinct}
use purecheckers.QuickPlay.Total.{pairs_total}
use purecheckers.QuickPlay.Queue.{is_of}

abbrev pub AllMatch : ℕ → List (ℕ × Entry) → Matching → Type 0
AllMatch now all m =
    (p : Pair) → p ∈ m.pairs → IsMatch now p × (p.a ∈ map entry_of all) × (p.b ∈ map entry_of all)

entry-mem : (i : ℕ) (e : Entry) (ps : List (ℕ × Entry)) → (i, e) ∈ ps → e ∈ map entry_of ps
entry-mem i e [] m = absurd m
entry-mem i e (p ∷ ps) (inl q) = inl (ap entry_of q)
entry-mem i e (p ∷ ps) (inr m) = inr (entry-mem i e ps m)

entries-indexed : (i : ℕ) (es : List Entry) → map entry_of (indexed i es) ≡ es
unfolding indexed
entries-indexed i [] = refl
entries-indexed i (e ∷ es) = ap (λ z. e ∷ z) (entries-indexed (i + 1) es)

AllMatch-Keeps : (now : ℕ) (all : List (ℕ × Entry)) → Keeps (AllMatch now all) now all
AllMatch-Keeps now all = record {
  pair = λ mode i j a b m ma mb ne fi fj match h. λ p mem.
      elim (append-mem p m.pairs (record { a = a; b = b; mode = mode } ∷ []) mem) [
        | inl n ↦ h p n
        | inr (inl e) ↦ (
          subst (λ z. IsMatch now z) (sym e) match,
          subst (λ z. z.a ∈ map entry_of all) (sym e) (entry-mem i a all ma),
          subst (λ z. z.b ∈ map entry_of all) (sym e) (entry-mem j b all mb),
        )
        | inr (inr n) ↦ absurd n
      ];
}

-- Every pair is of two players of the pool, of the kind that its mode asks for, and the first has the
-- second in the window of its rating.
pub try_match-IsMatch :
    (p : Pool) (now : ℕ) (pair : Pair)
    → pair ∈ (try_match p now).1
    → IsMatch now pair × (pair.a ∈ p.players) × (pair.b ∈ p.players)
unfolding try_match
try_match-IsMatch p now pair m =
    let all = indexed 0 p.players in
    let (match, ma, mb) =
      matching-keeps (AllMatch now all) now all (AllMatch-Keeps now all)
        (indexed-Distinct 0 p.players) (λ q n. absurd n) pair m in
    (
      match,
      subst (λ z. pair.a ∈ z) (entries-indexed 0 p.players) ma,
      subst (λ z. pair.b ∈ z) (entries-indexed 0 p.players) mb,
    )

-- How often a user stands in the pairs.
abbrev pub paired : ℕ → List Pair → ℕ
paired user ps = pairs_total (is_of user) ps

claim-other :
    (ps : List Pair) (claims : ℕ → Option Entry) (user : ℕ)
    → paired user ps ≡ 0
    → claim_all ps claims user ≡ claims user
unfolding claim_all set_claim pairs_total
claim-other [] claims user h = refl
claim-other (p ∷ ps) claims user h = ground (
  arith,
  claim-other ps (set_claim (set_claim claims p.a.user_id (some p.a)) p.b.user_id (some p.b)) user,
)

-- A user of one pair only is claimed by it.
pub claim-first :
    (ps : List Pair) (claims : ℕ → Option Entry) (p : Pair)
    → p ∈ ps
    → paired p.a.user_id ps ≤ 1
    → claim_all ps claims p.a.user_id ≡ some p.a
unfolding claim_all set_claim pairs_total
claim-first [] claims p m h = absurd m
claim-first (q ∷ ps) claims p (inl e) h =
    let next = set_claim (set_claim claims q.a.user_id (some q.a)) q.b.user_id (some q.b) in
    let bound = subst (λ z. paired z.a.user_id (q ∷ ps) ≤ 1) e h in
    subst (λ z. claim_all (q ∷ ps) claims z.a.user_id ≡ some z.a) (sym e)
      (ground (arith, claim-other ps next q.a.user_id, bound))
claim-first (q ∷ ps) claims p (inr m) h =
    claim-first ps (set_claim (set_claim claims q.a.user_id (some q.a)) q.b.user_id (some q.b)) p m
      (ground arith)

pub claim-second :
    (ps : List Pair) (claims : ℕ → Option Entry) (p : Pair)
    → p ∈ ps
    → paired p.b.user_id ps ≤ 1
    → claim_all ps claims p.b.user_id ≡ some p.b
unfolding claim_all set_claim pairs_total
claim-second [] claims p m h = absurd m
claim-second (q ∷ ps) claims p (inl e) h =
    let next = set_claim (set_claim claims q.a.user_id (some q.a)) q.b.user_id (some q.b) in
    let bound = subst (λ z. paired z.b.user_id (q ∷ ps) ≤ 1) e h in
    subst (λ z. claim_all (q ∷ ps) claims z.b.user_id ≡ some z.b) (sym e)
      (ground (arith, claim-other ps next q.b.user_id, bound))
claim-second (q ∷ ps) claims p (inr m) h =
    claim-second ps (set_claim (set_claim claims q.a.user_id (some q.a)) q.b.user_id (some q.b)) p m
      (ground arith)

-- A claim after the pairing is a pair's, or stood before.
pub claim-cases :
    (ps : List Pair) (claims : ℕ → Option Entry) (user : ℕ) (c : Entry)
    → claim_all ps claims user ≡ some c
    → ((claims user ≡ some c) × (paired user ps ≡ 0))
      ⊎ ((c.user_id ≡ user)
          × (1 ≤ paired user ps)
          × ((p : Pair) × (p ∈ ps) × ((c ≡ p.a) ⊎ (c ≡ p.b))))
unfolding claim_all set_claim pairs_total
claim-cases [] claims user c e = inl (e, refl)
claim-cases (q ∷ ps) claims user c e =
    elim (claim-cases ps
      (set_claim (set_claim claims q.a.user_id (some q.a)) q.b.user_id (some q.b)) user c e) [
        | inr (own, some_pair, (p, m, which)) ↦ inr (own, omega arith, (p, inr m, which))
        | inl (old, zero_rest) ↦ elim (Bool-cases (q.b.user_id == user)) [
          | inl t ↦ inr (ground arith, ground arith, (q, inl refl, inr (ground arith)))
          | inr t ↦ elim (Bool-cases (q.a.user_id == user)) [
            | inl u ↦ inr (ground arith, ground arith, (q, inl refl, inl (ground arith)))
            | inr u ↦ inl (ground arith, ground arith)
          ]
        ]
      ]
