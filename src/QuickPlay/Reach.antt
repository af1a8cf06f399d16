-- ===== src/QuickPlay/Reach.antt =====
-- What holds of every pool that the operations reach: nobody waits twice, nobody waits and is claimed,
-- and the queue is in the order in which its players came.
use purecheckers.Base.{
  ℕ, ◌+◌, ◌≤◌, ◌≡◌, sym, subst, ◌⊎◌, inl, inr, Bool, true, ◌||◌, ◌==◌, Bool-cases, Option-cases,
  none, some, [], ◌∷◌, ◌++◌, ◌∈◌, map, append-mem, arith,
}
use purecheckers.QuickPlay.{
  Entry, Pool, Pair, empty_pool, is_claimed, has, set_claim, add, remove, owns_claim, finish_claim,
  restore_claim, reset, indexed, matching, unmatched, entry_of, try_match,
}
use purecheckers.QuickPlay.Total.{total, total-try_match}
use purecheckers.QuickPlay.Queue.{
  IsSorted, is_of, count, total-append, count-has, count-without, without-mem, without-IsSorted,
  append-IsSorted, sort-IsSorted, sort-mem, total-sort, unmatched-mem, unmatched-IsSorted,
}
use purecheckers.QuickPlay.Claims.{
  paired, claim-first, claim-second, claim-cases, try_match-IsMatch,
}

pub record Claim (p : Pool) (user : ℕ) (c : Entry) : Type 0 where
  pub own : c.user_id ≡ user
  pub absent : count user p.players ≡ 0
  pub bounded : c.order ≤ p.order

pub record IsSound (p : Pool) : Type 0 where
  pub once : (user : ℕ) → count user p.players ≤ 1
  pub claimed : (user : ℕ) (c : Entry) → p.claims user ≡ some c → Claim p user c
  pub in_order : IsSorted p.players
  pub drawn : (e : Entry) → e ∈ p.players → e.order ≤ p.order

empty-IsSound : IsSound empty_pool
unfolding total
empty-IsSound = record {
  once = λ user. omega arith;
  claimed = λ user c e. absurd (ground arith);
  in_order = tt;
  drawn = λ e m. absurd m;
}

add-IsSound :
    (p : Pool) (user elo : ℕ) (is_guest : Bool) (now : ℕ)
    → IsSound p
    → IsSound (add p user elo is_guest now)
unfolding add total
add-IsSound p user elo is_guest now s =
    elim (Bool-cases (has p.players user || is_claimed (p.claims user))) [
      | inl t ↦ rw t s
      | inr t ↦
          let e : Entry = record {
            user_id = user;
            elo = elo;
            is_guest = is_guest;
            joined_at = now;
            order = p.order + 1;
          } in
          let none_yet = count-has user p.players (ground arith) in
          rw t (record {
            once =
                λ k. ground (arith, total-append (is_of k) p.players (e ∷ []), s.once k, none_yet);
            claimed = λ k c q.
                let old = s.claimed k c q in
                record {
                  own = old.own;
                  absent = ground (arith, total-append (is_of k) p.players (e ∷ []), old.absent);
                  bounded = omega (arith, old.bounded);
                };
            in_order = append-IsSorted p.players e s.in_order (λ x m. omega (arith, s.drawn x m));
            drawn = λ x m. elim (append-mem x p.players (e ∷ []) m) [
              | inl n ↦ omega (arith, s.drawn x n)
              | inr (inl q) ↦ subst (λ z. z.order ≤ p.order + 1) (sym q) (omega arith)
              | inr (inr n) ↦ absurd n
            ];
          })
    ]

remove-IsSound : (p : Pool) (user : ℕ) → IsSound p → IsSound (remove p user)
unfolding remove set_claim
remove-IsSound p user s = record {
  once = λ k. ground (arith, count-without user k p.players, s.once k);
  claimed = λ k c q.
      let old = s.claimed k c (ground arith) in
      record {
        own = old.own;
        absent = ground (arith, count-without user k p.players, old.absent);
        bounded = old.bounded;
      };
  in_order = without-IsSorted user p.players s.in_order;
  drawn = λ x m. s.drawn x (without-mem user x p.players m);
}

finish_claim-IsSound : (p : Pool) (e : Entry) → IsSound p → IsSound (finish_claim p e).0
unfolding finish_claim set_claim
finish_claim-IsSound p e s = elim (Bool-cases (owns_claim p e)) [
  | inl t ↦ rw t (record {
    once = s.once;
    claimed = λ k c q.
        let old = s.claimed k c (ground arith) in
        record { own = old.own; absent = old.absent; bounded = old.bounded };
    in_order = s.in_order;
    drawn = s.drawn;
  })
  | inr t ↦ rw t s
]

restore_claim-IsSound : (p : Pool) (e : Entry) → IsSound p → IsSound (restore_claim p e).0
unfolding restore_claim finish_claim owns_claim set_claim total
restore_claim-IsSound p e s = elim (Option-cases (p.claims e.user_id)) [
  | inl q ↦ rw (q, restore_claim) s
  | inr (c, q) ↦ elim (Bool-cases (c.order == e.order)) [
    | inr t ↦ rw (q, restore_claim, t) s
    | inl t ↦
        let old = s.claimed e.user_id c q in
        let more = λ (k : ℕ). total-append (is_of k) p.players (e ∷ []) in
        let sorted = λ (k : ℕ). total-sort (is_of k) (p.players ++ e ∷ []) in
        rw (q, restore_claim, t)
          (record {
            once = λ k. ground (arith, more k, sorted k, s.once k, old.absent);
            claimed = λ k d r.
                let before = s.claimed k d (ground arith) in
                record {
                  own = before.own;
                  absent = ground (arith, more k, sorted k, before.absent);
                  bounded = before.bounded;
                };
            in_order = sort-IsSorted (p.players ++ e ∷ []);
            drawn = λ x m.
                elim (append-mem x p.players (e ∷ []) (sort-mem x (p.players ++ e ∷ []) m)) [
                  | inl n ↦ s.drawn x n
                  | inr (inl z) ↦
                      subst (λ v. v.order ≤ p.order) (sym z) (ground (arith, old.bounded))
                  | inr (inr n) ↦ absurd n
                ];
          })
  ]
]

reset-IsSound : (p : Pool) → IsSound (reset p)
unfolding reset total
reset-IsSound p = record {
  once = λ user. omega arith;
  claimed = λ user c e. absurd (ground arith);
  in_order = tt;
  drawn = λ e m. absurd m;
}

try_match-IsSound : (p : Pool) (now : ℕ) → IsSound p → IsSound (try_match p now).0
unfolding try_match
try_match-IsSound p now s =
    let m = matching now (indexed 0 p.players) in
    let split : (k : ℕ)
        → count k p.players
          ≡ count k (map entry_of (unmatched m.matched (indexed 0 p.players))) + paired k m.pairs =
      λ k. total-try_match (is_of k) p now in
    record {
      once = λ k. omega (arith, split k, s.once k);
      claimed = λ k c q. elim (claim-cases m.pairs p.claims k c q) [
        | inl (old, outside) ↦
            let before = s.claimed k c old in
            record {
              own = before.own;
              absent = omega (arith, split k, before.absent);
              bounded = before.bounded;
            }
        | inr (own, inside, (pair, mem, which)) ↦
            let (match, ma, mb) = try_match-IsMatch p now pair mem in
            record {
              own = own;
              absent = omega (arith, split k, s.once k, inside);
              bounded = elim which [
                | inl z ↦ subst (λ v. v.order ≤ p.order) (sym z) (s.drawn pair.a ma)
                | inr z ↦ subst (λ v. v.order ≤ p.order) (sym z) (s.drawn pair.b mb)
              ];
            }
      ];
      in_order = unmatched-IsSorted m.matched 0 p.players s.in_order;
      drawn = λ x n. s.drawn x (unmatched-mem m.matched 0 x p.players n);
    }

-- The pools that calls of the methods reach.
pub data Reached : Pool → Type 0 where
  opens : Reached empty_pool
  adds :
      {p : Pool} (user elo : ℕ) (is_guest : Bool) (now : ℕ)
      → Reached p
      → Reached (add p user elo is_guest now)
  removes : {p : Pool} (user : ℕ) → Reached p → Reached (remove p user)
  finishes : {p : Pool} (e : Entry) → Reached p → Reached (finish_claim p e).0
  restores : {p : Pool} (e : Entry) → Reached p → Reached (restore_claim p e).0
  resets : {p : Pool} → Reached p → Reached (reset p)
  matches : {p : Pool} (now : ℕ) → Reached p → Reached (try_match p now).0

-- In every pool that the methods reach no user waits twice, a claimed user does not wait, a claim is
-- under its own user, and the queue is in the order in which its players were added.
pub Reached-IsSound : {p : Pool} → Reached p → IsSound p
Reached-IsSound opens = empty-IsSound
Reached-IsSound (adds {p = p} user elo is_guest now r) =
    add-IsSound p user elo is_guest now (Reached-IsSound r)
Reached-IsSound (removes {p = p} user r) = remove-IsSound p user (Reached-IsSound r)
Reached-IsSound (finishes {p = p} e r) = finish_claim-IsSound p e (Reached-IsSound r)
Reached-IsSound (restores {p = p} e r) = restore_claim-IsSound p e (Reached-IsSound r)
Reached-IsSound (resets {p = p} r) = reset-IsSound p
Reached-IsSound (matches {p = p} now r) = try_match-IsSound p now (Reached-IsSound r)

restored :
    (p : Pool) (e : Entry)
    → p.claims e.user_id ≡ some e
    → count e.user_id p.players ≡ 0
    → ((restore_claim p e).1 ≡ true)
      × (count e.user_id (restore_claim p e).0.players ≡ 1)
      × ((restore_claim p e).0.claims e.user_id ≡ none)
      × IsSorted (restore_claim p e).0.players
unfolding restore_claim finish_claim owns_claim set_claim total
restored p e q h =
    let more = total-append (is_of e.user_id) p.players (e ∷ []) in
    let sorted = total-sort (is_of e.user_id) (p.players ++ e ∷ []) in
    (
      ground arith,
      ground (arith, more, sorted),
      ground arith,
      rw (q, restore_claim) (ground (arith, sort-IsSorted (p.players ++ e ∷ []))),
    )

-- A pair that a reached pool makes claims both of its players, and each claim can be given back: the
-- player then waits once, unclaimed, in a queue in order.
pub try_match-restore :
    {p : Pool} (now : ℕ) (pair : Pair) (e : Entry)
    → Reached p
    → pair ∈ (try_match p now).1
    → (e ≡ pair.a) ⊎ (e ≡ pair.b)
    → let after = restore_claim (try_match p now).0 e in
      (after.1 ≡ true)
      × (count e.user_id after.0.players ≡ 1)
      × (after.0.claims e.user_id ≡ none)
      × IsSorted after.0.players
unfolding try_match
try_match-restore {p} now pair e r m which =
    let s = Reached-IsSound r in
    let ps = (try_match p now).1 in
    let bound : (k : ℕ) → paired k ps ≤ 1 =
      λ k. omega (arith, total-try_match (is_of k) p now, s.once k) in
    let claim : (try_match p now).0.claims e.user_id ≡ some e = elim which [
      | inl z ↦
          subst (λ v. (try_match p now).0.claims v.user_id ≡ some v) (sym z)
            (claim-first ps p.claims pair m (bound pair.a.user_id))
      | inr z ↦
          subst (λ v. (try_match p now).0.claims v.user_id ≡ some v) (sym z)
            (claim-second ps p.claims pair m (bound pair.b.user_id))
    ] in
    let old = (try_match-IsSound p now s).claimed e.user_id e claim in
    restored (try_match p now).0 e claim old.absent
