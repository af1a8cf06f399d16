-- ===== src/QuickPlay/Passes.antt =====
-- A rule for the three passes of the pairing: what each new pair keeps, the whole pairing keeps. A new
-- pair is of two players at distinct places, both unmatched, and one that the passes allow.
use purecheckers.Base.{
  ℕ, ◌+◌, ◌≤◌, ◌<◌, ◌≡◌, refl, sym, ap, subst, ◌∙◌, inl, inr, ◌≢◌, Bool, true, false, not,
  if◌then◌else◌, ltb, Bool-cases, Option-cases, some, List, [], ◌∷◌, ◌∈◌, mem-if, mem-if_not, arith,
}
use purecheckers.QuickPlay.{
  Entry, Pair, Mode, ranked, friendly, Matching, is_matched, is_within, indexed, group, unmatched,
  partner, join, match_one, match_within_group, match_mixed, matching,
}

-- What the passes ask of a pair: two registered play ranked, two guests play friendly, and so do a
-- registered who has waited for ten seconds and a guest; the first has the second in the window.
pub data Kind (now : ℕ) : Pair → Type 0 where
  both_registered :
      {a b : Entry}
      → a.is_guest ≡ false
      → b.is_guest ≡ false
      → Kind now (record { a = a; b = b; mode = ranked })
  both_guests :
      {a b : Entry}
      → a.is_guest ≡ true
      → b.is_guest ≡ true
      → Kind now (record { a = a; b = b; mode = friendly })
  mixed :
      {a b : Entry}
      → a.is_guest ≡ false
      → b.is_guest ≡ true
      → a.joined_at + 10000 ≤ now
      → Kind now (record { a = a; b = b; mode = friendly })

abbrev pub IsMatch : ℕ → Pair → Type 0
IsMatch now p = Kind now p × (is_within now p.a p.b ≡ true)

abbrev pub Above : ℕ → List (ℕ × Entry) → Type 0
Above i [] = Unit {0}
Above i ((j, p) ∷ ps) = (i < j) × Above i ps

-- The indices go up.
abbrev pub Distinct : List (ℕ × Entry) → Type 0
Distinct [] = Unit {0}
Distinct ((i, p) ∷ ps) = Above i ps × Distinct ps

indexed-Above : (i j : ℕ) (ps : List Entry) → i < j → Above i (indexed j ps)
unfolding indexed
indexed-Above i j [] h = tt
indexed-Above i j (p ∷ ps) h = (h, indexed-Above i (j + 1) ps (omega arith))

pub indexed-Distinct : (i : ℕ) (ps : List Entry) → Distinct (indexed i ps)
unfolding indexed
indexed-Distinct i [] = tt
indexed-Distinct i (p ∷ ps) =
    (indexed-Above i (i + 1) ps (omega arith), indexed-Distinct (i + 1) ps)

pub Above-mem : (i j : ℕ) (p : Entry) (ps : List (ℕ × Entry)) → Above i ps → (j, p) ∈ ps → i < j
Above-mem i j p [] h m = absurd m
Above-mem i j p ((k, q) ∷ ps) h (inl e) = subst (λ z. i < z.0) (sym e) h.0
Above-mem i j p ((k, q) ∷ ps) h (inr m) = Above-mem i j p ps h.1 m

unique :
    (i : ℕ) (p q : Entry) (ps : List (ℕ × Entry)) → Distinct ps → (i, p) ∈ ps → (i, q) ∈ ps → p ≡ q
unique i p q [] d m n = absurd m
unique i p q (x ∷ ps) d (inl e) (inl e') = ap (λ z. z.1) (e ∙ sym e')
unique i p q ((k, x) ∷ ps) d (inl e) (inr n) =
    absurd (omega (arith, Above-mem k i q ps d.0 n, ap (λ z. z.0) e))
unique i p q ((k, x) ∷ ps) d (inr m) (inl e) =
    absurd (omega (arith, Above-mem k i p ps d.0 m, ap (λ z. z.0) e))
unique i p q (x ∷ ps) d (inr m) (inr n) = unique i p q ps d.1 m n

Above-members :
    (i : ℕ) (ps : List (ℕ × Entry)) → ((j : ℕ) (q : Entry) → (j, q) ∈ ps → i < j) → Above i ps
Above-members i [] h = tt
Above-members i ((j, q) ∷ ps) h = (h j q (inl refl), Above-members i ps (λ k r m. h k r (inr m)))

group-mem :
    (guests : Bool) (i : ℕ) (p : Entry) (ps : List (ℕ × Entry))
    → (i, p) ∈ group guests ps
    → ((i, p) ∈ ps) × (p.is_guest ≡ guests)
unfolding group
group-mem guests i p [] m = absurd m
group-mem true i p ((j, q) ∷ ps) m = elim (mem-if (i, p) (j, q) (group true ps) q.is_guest m) [
  | inl (t, e) ↦ (inl e, ap (λ z. z.1.is_guest) e ∙ t)
  | inr n ↦ let (k, t) = group-mem true i p ps n in (inr k, t)
]
group-mem false i p ((j, q) ∷ ps) m =
    elim (mem-if (i, p) (j, q) (group false ps) (not q.is_guest) m) [
      | inl (t, e) ↦ (inl e, ap (λ z. z.1.is_guest) e ∙ ground arith)
      | inr n ↦ let (k, t) = group-mem false i p ps n in (inr k, t)
    ]

group-Distinct : (guests : Bool) (ps : List (ℕ × Entry)) → Distinct ps → Distinct (group guests ps)
unfolding group
group-Distinct guests [] d = tt
group-Distinct guests ((i, p) ∷ ps) d =
    let ih = group-Distinct guests ps d.1 in
    let above =
      Above-members i (group guests ps)
        (λ j q m. Above-mem i j q ps d.0 (group-mem guests j q ps m).0) in
    elim (Bool-cases (if guests then p.is_guest else not p.is_guest)) [
      | inl t ↦ rw t (above, ih)
      | inr t ↦ rw t ih
    ]

unmatched-mem :
    (matched : List ℕ) (x : ℕ × Entry) (ps : List (ℕ × Entry)) → x ∈ unmatched matched ps → x ∈ ps
unfolding unmatched
unmatched-mem matched x [] m = absurd m
unmatched-mem matched x ((j, q) ∷ ps) m =
    elim (mem-if_not x (j, q) (unmatched matched ps) (is_matched matched j) m) [
      | inl (t, e) ↦ inl e
      | inr n ↦ inr (unmatched-mem matched x ps n)
    ]

partner-mem :
    (now : ℕ) (matched : List ℕ) (a : Entry) (ps : List (ℕ × Entry)) (j : ℕ) (b : Entry)
    → partner now matched a ps ≡ some (j, b)
    → ((j, b) ∈ ps) × (is_matched matched j ≡ false) × (is_within now a b ≡ true)
unfolding partner
partner-mem now matched a [] j b e = absurd (ground arith)
partner-mem now matched a ((i, p) ∷ ps) j b e = ground (arith, partner-mem now matched a ps j b)

-- A property that each new pair keeps, over the players `all`.
pub record Keeps (P : Matching → Type 0) (now : ℕ) (all : List (ℕ × Entry)) : Type 0 where
  pub pair :
      (mode : Mode) (i j : ℕ) (a b : Entry) (m : Matching)
      → (i, a) ∈ all
      → (j, b) ∈ all
      → i ≢ j
      → is_matched m.matched i ≡ false
      → is_matched m.matched j ≡ false
      → IsMatch now (record { a = a; b = b; mode = mode })
      → P m
      → P (join m i a mode (some (j, b)))

module _ (P : Matching → Type 0) (now : ℕ) (all : List (ℕ × Entry)) (keeps : Keeps P now all) where
  match_one-keeps :
      (mode : Mode) (i : ℕ) (a : Entry) (others : List (ℕ × Entry)) (m : Matching)
      → (i, a) ∈ all
      → ((j : ℕ) (b : Entry)
          → (j, b) ∈ others
          → ((j, b) ∈ all) × (i ≢ j) × Kind now (record { a = a; b = b; mode = mode }))
      → P m
      → P (match_one now mode i a others m)
  unfolding match_one
  match_one-keeps mode i a others m mem fits h = elim (Bool-cases (is_matched m.matched i)) [
    | inl t ↦ rw t h
    | inr t ↦ elim (Option-cases (partner now m.matched a others)) [
      | inl e ↦ rw (t, e) h
      | inr ((j, b), e) ↦
          let (k, free, within) = partner-mem now m.matched a others j b e in
          let (there, other, kind) = fits j b k in
          rw (t, e) (keeps.pair mode i j a b m mem there other t free (kind, within) h)
    ]
  ]

  within_group-keeps :
      (guests : Bool) (mode : Mode) (ps : List (ℕ × Entry)) (m : Matching)
      → ((a b : Entry)
          → a.is_guest ≡ guests
          → b.is_guest ≡ guests
          → Kind now (record { a = a; b = b; mode = mode }))
      → ((i : ℕ) (p : Entry) → (i, p) ∈ ps → ((i, p) ∈ all) × (p.is_guest ≡ guests))
      → Distinct ps
      → P m
      → P (match_within_group now mode ps m)
  unfolding match_within_group
  within_group-keeps guests mode [] m kind sub d h = h
  within_group-keeps guests mode ((i, a) ∷ ps) m kind sub d h =
      let (mem, same) = sub i a (inl refl) in
      within_group-keeps guests mode ps (match_one now mode i a ps m) kind
        (λ j b k. sub j b (inr k)) d.1
        (match_one-keeps mode i a ps m mem
          (λ j b k.
            let (there, too) = sub j b (inr k) in
            let above = Above-mem i j b ps d.0 k in
            (there, (λ e. absurd (omega arith)), kind a b same too))
          h)

  mixed-keeps :
      (guests ps : List (ℕ × Entry)) (m : Matching)
      → Distinct all
      → ((i : ℕ) (p : Entry) → (i, p) ∈ ps → ((i, p) ∈ all) × (p.is_guest ≡ false))
      → ((i : ℕ) (p : Entry) → (i, p) ∈ guests → ((i, p) ∈ all) × (p.is_guest ≡ true))
      → P m
      → P (match_mixed now guests ps m)
  unfolding match_mixed
  mixed-keeps guests [] m d sub to h = h
  mixed-keeps guests ((i, a) ∷ ps) m d sub to h =
      let (mem, registered) = sub i a (inl refl) in
      elim (Bool-cases (ltb now (a.joined_at + 10000))) [
        | inl t ↦ rw t (mixed-keeps guests ps m d (λ j b k. sub j b (inr k)) to h)
        | inr t ↦ rw t (
            mixed-keeps guests ps (match_one now friendly i a guests m) d (λ j b k. sub j b (inr k))
              to
              (match_one-keeps friendly i a guests m mem
                (λ j b k.
                  let (there, guest) = to j b k in
                  (
                    there,
                    (λ e. cc (
                      ap (λ z. z.is_guest)
                          (unique i a b all d mem (subst (λ z. (z, b) ∈ all) (sym e) there)),
                      registered,
                      guest,
                    )),
                    mixed registered guest (ground arith),
                  ))
                h))
      ]

  -- The pairing keeps what each new pair keeps.
  pub matching-keeps : Distinct all → P (record { matched = []; pairs = [] }) → P (matching now all)
  unfolding matching
  matching-keeps d h =
      let registered = group false all in
      let guests = group true all in
      let first = match_within_group now ranked registered (record { matched = []; pairs = [] }) in
      let second = match_within_group now friendly guests first in
      mixed-keeps (unmatched second.matched guests) (unmatched second.matched registered) second d
        (λ i p m. group-mem false i p all (unmatched-mem second.matched (i, p) registered m))
        (λ i p m. group-mem true i p all (unmatched-mem second.matched (i, p) guests m))
        (within_group-keeps true friendly guests first (λ a b x y. both_guests x y)
          (λ i p m. group-mem true i p all m) (group-Distinct true all d)
          (within_group-keeps false ranked registered (record { matched = []; pairs = [] })
            (λ a b x y. both_registered x y) (λ i p m. group-mem false i p all m)
            (group-Distinct false all d) h))
