-- ===== src/Moves/Rays.antt =====
-- The `while` loops of CheckersGame along one ray: `scan` stops at the first square that is not
-- free, and `slide` makes one move for each free square. Both end by their test before the fuel.
use purecheckers.Base.{
  ℕ_discrete, ℕ, zero, suc, ◌+◌, ◌<◌, ◌≤◌, ◌≡◌, refl, ◌∙◌, ap, sym, ◌⊎◌, inl, inr, true, false, ltb,
  Bool-cases, List, arith, ◌∈◌,
}
use purecheckers.Board.{Board, outside, minus, plus, Direction, directions, at, look}
use purecheckers.Moves.{Hop, is_free, hop_to, scan, slide}

-- Every direction is listed.
pub mem-directions : (dir : Direction) → dir ∈ directions
mem-directions (minus, minus) = inl refl
mem-directions (minus, plus) = inr (inl refl)
mem-directions (plus, minus) = inr (inr (inl refl))
mem-directions (plus, plus) = inr (inr (inr (inl refl)))

-- Eight steps lead off the board.
pub look_far :
    (b : Board) (r c : ℕ) (dir : Direction) (d : ℕ)
    → r < 8
    → c < 8
    → 8 ≤ d
    → look b r c dir d ≡ outside
unfolding look at
look_far b r c (minus, sc) d hr hc h = ground arith
look_far b r c (plus, sc) d hr hc h = ground arith

module _ (b : Board) (r c : ℕ) (dir : Direction) where
  -- The squares at the distances from `i` up to, not including, `j` are free.
  abbrev pub Free : ℕ → ℕ → Type 0
  Free i j = (k : ℕ) → i ≤ k → k < j → is_free (look b r c dir k) ≡ true

  Free-suc : (i j : ℕ) → is_free (look b r c dir i) ≡ true → Free (i + 1) j → Free i j
  Free-suc i j e f k h l = elim (ℕ_discrete i k) [ yes s ↦ rw (← s) e | no n ↦ f k (omega arith) l ]

  pub Free-narrow : (i j i' j' : ℕ) → i ≤ i' → j' ≤ j → Free i j → Free i' j'
  Free-narrow i j i' j' h k f n p q = f n (omega arith) (omega arith)

  pub record Scanned (fuel dist d : ℕ) : Type 0 where
    pub starts : dist ≤ d
    pub within : d ≤ dist + fuel
    pub clear : Free dist d
    pub stops : d < dist + fuel → is_free (look b r c dir d) ≡ false

  pub scan_lem : (fuel dist : ℕ) → Scanned fuel dist (scan b r c dir fuel dist)
  unfolding scan
  scan_lem zero dist = record {
    starts = omega arith;
    within = omega arith;
    clear = λ k p q. absurd (omega arith);
    stops = λ h. absurd (omega arith);
  }
  scan_lem (suc fuel) dist = elim (Bool-cases (is_free (look b r c dir dist))) [
    | inl e ↦
        let s = scan_lem fuel (dist + 1) in
        rw (e, scan)
          (record {
            starts = omega (arith, s.starts);
            within = omega (arith, s.within);
            clear = Free-suc dist _ e s.clear;
            stops = λ h. s.stops (omega arith);
          })
    | inr e ↦
        rw (e, scan)
          (record {
            starts = omega arith;
            within = omega arith;
            clear = λ k p q. absurd (omega arith);
            stops = λ h. e;
          })
  ]

  -- A move of `slide` goes to a distance up to which the ray is free.
  pub record Slides (captured : List (ℕ × ℕ)) (fuel dist : ℕ) (h : Hop) : Type 0 where
    pub far : ℕ
    pub starts : dist ≤ far
    pub within : far < dist + fuel
    pub clear : Free dist (far + 1)
    pub hop : h ≡ hop_to r c dir far captured

  pub slide-mem :
      (captured : List (ℕ × ℕ)) (fuel dist : ℕ) (h : Hop)
      → h ∈ slide b r c dir captured fuel dist
      → Slides captured fuel dist h
  unfolding slide
  slide-mem captured zero dist h m = absurd m
  slide-mem captured (suc fuel) dist h m = elim (Bool-cases (is_free (look b r c dir dist))) [
    | inr e ↦ absurd (rw (e, slide) at m)
    | inl e ↦
        let m' : (h ≡ hop_to r c dir dist captured)
            ⊎ (h ∈ slide b r c dir captured fuel (dist + 1)) =
          rw (e, slide) at m in
        elim m' [
          | inl q ↦ record {
            far = dist;
            starts = omega arith;
            within = omega arith;
            clear = Free-suc dist _ e (λ k p l. absurd (omega arith));
            hop = q;
          }
          | inr q ↦
              let s = slide-mem captured fuel (dist + 1) h q in
              record {
                far = s.far;
                starts = omega (arith, s.starts);
                within = omega (arith, s.within);
                clear = Free-suc dist _ e s.clear;
                hop = s.hop;
              }
        ]
  ]

  pub mem-slide :
      (captured : List (ℕ × ℕ)) (fuel dist far : ℕ)
      → dist ≤ far
      → far < dist + fuel
      → Free dist (far + 1)
      → hop_to r c dir far captured ∈ slide b r c dir captured fuel dist
  unfolding slide
  mem-slide captured zero dist far h l f = absurd (omega arith)
  mem-slide captured (suc fuel) dist far h l f =
      rw (f dist (omega arith) (omega arith), slide)
        (elim (ℕ_discrete dist far) [
          | yes e ↦ inl (ap (λ k. hop_to r c dir k captured) (sym e))
          | no n ↦ inr (
              mem-slide captured fuel (dist + 1) far (omega arith) (omega arith)
                (Free-narrow dist (far + 1) (dist + 1) (far + 1) (omega arith) (omega arith) f))
        ])

  module _ (hr : r < 8) (hc : c < 8) where
    pub free_near : (k : ℕ) → is_free (look b r c dir k) ≡ true → k < 8
    free_near k e = elim (Bool-cases (ltb k 8)) [
      | inl l ↦ ground arith
      | inr n ↦ ground (arith, look_far b r c dir k hr hc)
    ]

    -- From distance 1 the scan ends by its test.
    pub scan_stops : is_free (look b r c dir (scan b r c dir 8 1)) ≡ false
    scan_stops = elim (Bool-cases (is_free (look b r c dir (scan b r c dir 8 1)))) [
      | inr e ↦ e
      | inl e ↦ (scan_lem 8 1).stops (omega (arith, free_near _ e))
    ]

    -- The first distance that is not free is the one the scan finds.
    pub scan_unique :
        (d : ℕ) → 1 ≤ d → Free 1 d → is_free (look b r c dir d) ≡ false → scan b r c dir 8 1 ≡ d
    scan_unique d h f e =
        let s = scan_lem 8 1 in
        let e' = scan b r c dir 8 1 in
        let p : e' < d → ⊥ = λ l. cc (sym scan_stops ∙ f e' s.starts l) in
        let q : d < e' → ⊥ = λ l. cc (sym e ∙ s.clear d h l) in omega arith
