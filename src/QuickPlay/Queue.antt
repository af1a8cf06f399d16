-- ===== src/QuickPlay/Queue.antt =====
-- The order of the queue and the counts of a user in it, under the operations on the players.
use purecheckers.Base.{
  ℕ, ◌+◌, ◌≤◌, ◌≡◌, refl, sym, subst, ◌⊎◌, inl, inr, false, ◌==◌, leb, if◌then◌else◌, Bool-cases,
  List, [], ◌∷◌, ◌++◌, ◌∈◌, map, mem-if_not, append-mem, arith,
}
use purecheckers.QuickPlay.{
  Entry, has, without, insert_by_order, sort_by_order, is_matched, indexed, unmatched, entry_of,
}
use purecheckers.QuickPlay.Total.{total}

-- The one who came first stands first.
abbrev pub IsSorted : List Entry → Type 0
IsSorted [] = Unit {0}
IsSorted (e ∷ es) = ((x : Entry) → x ∈ es → e.order ≤ x.order) × IsSorted es

abbrev pub is_of : ℕ → Entry → ℕ
is_of user e = if e.user_id == user then 1 else 0

abbrev pub count : ℕ → List Entry → ℕ
count user es = total (is_of user) es

pub total-append :
    (f : Entry → ℕ) (xs ys : List Entry) → total f (xs ++ ys) ≡ total f xs + total f ys
unfolding total
total-append f [] ys = omega arith
total-append f (x ∷ xs) ys = omega (arith, total-append f xs ys)

pub count-has : (user : ℕ) (es : List Entry) → has es user ≡ false → count user es ≡ 0
unfolding has total
count-has user [] h = refl
count-has user (e ∷ es) h = ground (arith, count-has user es)

pub count-without :
    (user k : ℕ) (es : List Entry)
    → count k (without user es) ≡ (if user == k then 0 else count k es)
unfolding without total
count-without user k [] = ground arith
count-without user k (e ∷ es) = ground (arith, count-without user k es)

pub without-mem : (user : ℕ) (x : Entry) (es : List Entry) → x ∈ without user es → x ∈ es
unfolding without
without-mem user x [] m = absurd m
without-mem user x (e ∷ es) m = elim (mem-if_not x e (without user es) (e.user_id == user) m) [
  | inl (t, q) ↦ inl q
  | inr n ↦ inr (without-mem user x es n)
]

pub without-IsSorted : (user : ℕ) (es : List Entry) → IsSorted es → IsSorted (without user es)
unfolding without
without-IsSorted user [] s = tt
without-IsSorted user (e ∷ es) s = elim (Bool-cases (e.user_id == user)) [
  | inl t ↦ rw t (without-IsSorted user es s.1)
  | inr t ↦ rw t ((λ x m. s.0 x (without-mem user x es m)), without-IsSorted user es s.1)
]

pub append-IsSorted :
    (es : List Entry) (e : Entry)
    → IsSorted es
    → ((x : Entry) → x ∈ es → x.order ≤ e.order)
    → IsSorted (es ++ e ∷ [])
append-IsSorted [] e s h = ((λ x m. absurd m), tt)
append-IsSorted (a ∷ es) e s h = (
  (λ x m. elim (append-mem x es (e ∷ []) m) [
    | inl n ↦ s.0 x n
    | inr (inl q) ↦ subst (λ z. a.order ≤ z.order) (sym q) (h a (inl refl))
    | inr (inr n) ↦ absurd n
  ]),
  append-IsSorted es e s.1 (λ x m. h x (inr m)),
)

insert-mem : (e x : Entry) (es : List Entry) → x ∈ insert_by_order e es → (x ≡ e) ⊎ (x ∈ es)
unfolding insert_by_order
insert-mem e x [] m = m
insert-mem e x (p ∷ ps) m = elim (Bool-cases (leb e.order p.order)) [
  | inl t ↦ subst (λ z. x ∈ (if z then e ∷ p ∷ ps else p ∷ insert_by_order e ps)) t m
  | inr t ↦ elim (subst (λ z. x ∈ (if z then e ∷ p ∷ ps else p ∷ insert_by_order e ps)) t m) [
    | inl q ↦ inr (inl q)
    | inr n ↦ elim (insert-mem e x ps n) [ inl q ↦ inl q | inr k ↦ inr (inr k) ]
  ]
]

insert-IsSorted : (e : Entry) (es : List Entry) → IsSorted es → IsSorted (insert_by_order e es)
unfolding insert_by_order
insert-IsSorted e [] s = ((λ x m. absurd m), tt)
insert-IsSorted e (p ∷ ps) s = elim (Bool-cases (leb e.order p.order)) [
  | inl t ↦ rw t (
    (λ x m. elim m [
      | inl q ↦ subst (λ z. e.order ≤ z.order) (sym q) (ground arith)
      | inr n ↦ ground (arith, s.0 x n)
    ]),
    s,
  )
  | inr t ↦ rw t (
    (λ x m. elim (insert-mem e x ps m) [
      | inl q ↦ subst (λ z. p.order ≤ z.order) (sym q) (ground arith)
      | inr n ↦ s.0 x n
    ]),
    insert-IsSorted e ps s.1,
  )
]

pub sort-IsSorted : (es : List Entry) → IsSorted (sort_by_order es)
unfolding sort_by_order
sort-IsSorted [] = tt
sort-IsSorted (e ∷ es) = insert-IsSorted e (sort_by_order es) (sort-IsSorted es)

pub sort-mem : (x : Entry) (es : List Entry) → x ∈ sort_by_order es → x ∈ es
unfolding sort_by_order
sort-mem x [] m = m
sort-mem x (e ∷ es) m = elim (insert-mem e x (sort_by_order es) m) [
  | inl q ↦ inl q
  | inr n ↦ inr (sort-mem x es n)
]

total-insert :
    (f : Entry → ℕ) (e : Entry) (es : List Entry)
    → total f (insert_by_order e es) ≡ f e + total f es
unfolding insert_by_order total
total-insert f e [] = refl
total-insert f e (p ∷ ps) = ground (arith, total-insert f e ps)

pub total-sort : (f : Entry → ℕ) (es : List Entry) → total f (sort_by_order es) ≡ total f es
unfolding sort_by_order total
total-sort f [] = refl
total-sort f (e ∷ es) = omega (arith, total-insert f e (sort_by_order es), total-sort f es)

pub unmatched-mem :
    (matched : List ℕ) (i : ℕ) (x : Entry) (es : List Entry)
    → x ∈ map entry_of (unmatched matched (indexed i es))
    → x ∈ es
unfolding unmatched indexed
unmatched-mem matched i x [] m = m
unmatched-mem matched i x (e ∷ es) m = elim (Bool-cases (is_matched matched i)) [
  | inl t ↦ inr (
      unmatched-mem matched (i + 1) x es (
        subst
          (λ z.
            x
            ∈ map entry_of (
                if z
                then unmatched matched (indexed (i + 1) es)
                else (i, e) ∷ unmatched matched (indexed (i + 1) es)))
          t m))
  | inr t ↦
      elim (subst
        (λ z.
          x
          ∈ map entry_of (
              if z
              then unmatched matched (indexed (i + 1) es)
              else (i, e) ∷ unmatched matched (indexed (i + 1) es)))
        t m) [ inl q ↦ inl q | inr n ↦ inr (unmatched-mem matched (i + 1) x es n) ]
]

pub unmatched-IsSorted :
    (matched : List ℕ) (i : ℕ) (es : List Entry)
    → IsSorted es
    → IsSorted (map entry_of (unmatched matched (indexed i es)))
unfolding unmatched indexed
unmatched-IsSorted matched i [] s = tt
unmatched-IsSorted matched i (e ∷ es) s = elim (Bool-cases (is_matched matched i)) [
  | inl t ↦ rw t (unmatched-IsSorted matched (i + 1) es s.1)
  | inr t ↦ rw t (
    (λ x m. s.0 x (unmatched-mem matched (i + 1) x es m)),
    unmatched-IsSorted matched (i + 1) es s.1,
  )
]
