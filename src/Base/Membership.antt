-- ===== src/Base/Membership.antt =====
-- Membership as a predicate by recursion, which the tactics read and build.
use Prim.Native.Nat.{ℕ, zero, suc, ◌+◌, ◌<◌, ◌≤◌}
use mathlib.Core.Path.{◌≡◌, refl, ap, subst, ◌∙◌}
use mathlib.Core.Logic.{◌⊎◌, inl, inr}
use mathlib.Core.List.{List, [], ◌∷◌, ◌++◌, map}
use native.Mathlib.Omega.{arith}
use purecheckers.Base.Lists.{flat_map, range_from, includes, all_of, filter}
use mathlib.Core.Bool.{Bool, true, false}
use purecheckers.Base.Tests.{if◌then◌else◌, if_ind}

infix 40 ◌∈◌
abbrev pub ◌∈◌ : {A : Type 0} → A → List A → Type 0
x ∈ [] = ⊥
x ∈ y ∷ ys = (x ≡ y) ⊎ (x ∈ ys)

module _ {A : Type 0} (x : A) where
  pub mem-append_left : (xs ys : List A) → x ∈ xs → x ∈ xs ++ ys
  mem-append_left [] ys h = absurd h
  mem-append_left (y ∷ xs) ys (inl e) = inl e
  mem-append_left (y ∷ xs) ys (inr h) = inr (mem-append_left xs ys h)

  pub mem-append_right : (xs ys : List A) → x ∈ ys → x ∈ xs ++ ys
  mem-append_right [] ys h = h
  mem-append_right (y ∷ xs) ys h = inr (mem-append_right xs ys h)

  pub append-mem : (xs ys : List A) → x ∈ xs ++ ys → (x ∈ xs) ⊎ (x ∈ ys)
  append-mem [] ys h = inr h
  append-mem (y ∷ xs) ys (inl e) = inl (inl e)
  append-mem (y ∷ xs) ys (inr h) = elim (append-mem xs ys h) [ inl a ↦ inl (inr a) | inr b ↦ inr b ]

module _ {A B : Type 0} (f : A → List B) where
  pub mem-flat_map : (xs : List A) (x : A) (y : B) → x ∈ xs → y ∈ f x → y ∈ flat_map f xs
  unfolding flat_map
  mem-flat_map [] x y h k = absurd h
  mem-flat_map (a ∷ xs) x y (inl e) k =
      mem-append_left y (f a) (flat_map f xs) (subst (λ z. y ∈ f z) e k)
  mem-flat_map (a ∷ xs) x y (inr h) k =
      mem-append_right y (f a) (flat_map f xs) (mem-flat_map xs x y h k)

  pub flat_map-mem : (xs : List A) (y : B) → y ∈ flat_map f xs → (x : A) × (x ∈ xs) × (y ∈ f x)
  unfolding flat_map
  flat_map-mem [] y h = absurd h
  flat_map-mem (a ∷ xs) y h = elim (append-mem y (f a) (flat_map f xs) h) [
    | inl k ↦ (a, inl refl, k)
    | inr k ↦ let (x, hx, hy) = flat_map-mem xs y k in (x, inr hx, hy)
  ]

module _ {A B : Type 0} (f : A → B) where
  pub mem-map : (xs : List A) (x : A) → x ∈ xs → f x ∈ map f xs
  mem-map [] x h = absurd h
  mem-map (a ∷ xs) x (inl e) = inl (ap f e)
  mem-map (a ∷ xs) x (inr h) = inr (mem-map xs x h)

  pub map-mem : (xs : List A) (y : B) → y ∈ map f xs → (x : A) × (x ∈ xs) × (y ≡ f x)
  map-mem [] y h = absurd h
  map-mem (a ∷ xs) y (inl e) = (a, inl refl, e)
  map-mem (a ∷ xs) y (inr h) = let (x, hx, e) = map-mem xs y h in (x, inr hx, e)

pub mem-range_from : (n i k : ℕ) → i ≤ k → k < i + n → k ∈ range_from i n
mem-range_from zero i k h l = absurd (omega arith)
mem-range_from (suc n) i k h l = elim (range_split i k h) [
  | inl e ↦ inl e
  | inr q ↦ inr (mem-range_from n (i + 1) k q (omega arith))
]
  where
    range_split : (i k : ℕ) → i ≤ k → (k ≡ i) ⊎ (i + 1 ≤ k)
    range_split i k h = grind arith

module _ {A : Type 0} (x y : A) (rest : List A) where
  -- A member of a list whose head stands under a test.
  pub mem-if : (t : Bool) → x ∈ (if t then y ∷ rest else rest) → ((t ≡ true) × (x ≡ y)) ⊎ (x ∈ rest)
  mem-if true (inl e) = inl (refl, e)
  mem-if true (inr m) = inr m
  mem-if false m = inr m

  pub mem-if_not :
      (t : Bool) → x ∈ (if t then rest else y ∷ rest) → ((t ≡ false) × (x ≡ y)) ⊎ (x ∈ rest)
  mem-if_not true m = inr m
  mem-if_not false (inl e) = inl (refl, e)
  mem-if_not false (inr m) = inr m

pub includes-mem : (xs : List ℕ) (k : ℕ) → k ∈ xs → includes xs k ≡ true
unfolding includes
includes-mem [] k h = absurd h
includes-mem (x ∷ xs) k (inl e) = ground (arith, e)
includes-mem (x ∷ xs) k (inr h) = ground (arith, includes-mem xs k h)

module _ {A : Type 0} (test : A → Bool) where
  pub all_of_lem : (xs : List A) → ((x : A) → x ∈ xs → test x ≡ true) → all_of test xs ≡ true
  unfolding all_of
  all_of_lem [] h = refl
  all_of_lem (x ∷ xs) h = ground (arith, h x (inl refl), all_of_lem xs (λ y m. h y (inr m)))

  pub mem-filter : (xs : List A) (x : A) → x ∈ xs → test x ≡ true → x ∈ filter test xs
  unfolding filter
  mem-filter [] x m t = m
  mem-filter (y ∷ xs) x (inl e) t =
      if_ind (λ z. x ∈ z) (test y) (λ _. inl e) (λ f. absurd (ground (arith, f, ap test e, t)))
  mem-filter (y ∷ xs) x (inr m) t =
      if_ind (λ z. x ∈ z) (test y) (λ _. inr (mem-filter xs x m t)) (λ _. mem-filter xs x m t)

  pub filter-mem : (xs : List A) (x : A) → x ∈ filter test xs → (x ∈ xs) × (test x ≡ true)
  unfolding filter
  filter-mem [] x m = absurd m
  filter-mem (y ∷ xs) x m = elim (mem-if x y (filter test xs) (test y) m) [
    | inl (t, e) ↦ (inl e, ap test e ∙ t)
    | inr k ↦ let rest = filter-mem xs x k in (inr rest.0, rest.1)
  ]
