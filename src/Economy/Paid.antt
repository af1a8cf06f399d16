-- ===== src/Economy/Paid.antt =====
-- A payout that was paid stays paid when payouts are queued and claimed.
use purecheckers.Base.{
  ℕ, ◌==◌, ◌≡◌, refl, ap, sym, ◌∙◌, inl, inr, if_ind, Bool-cases, true, false, not, if◌then◌else◌,
  Option, none, some, is_some, List, [], ◌∷◌, ◌++◌, arith,
}
use purecheckers.Economy.{PendingPayout}
use purecheckers.Economy.Pending.{find_payout, mark_claimed}

payout_or : PendingPayout → Option PendingPayout → PendingPayout
payout_or d none = d
payout_or d (some p) = p

payout_eq : (p q : PendingPayout) → some p ≡ some q → p ≡ q
unfolding payout_or
payout_eq p q e = ap (payout_or p) e

pub find_payout-mark_claimed :
    (id : ℕ) (ps : List PendingPayout) (p : PendingPayout)
    → find_payout id ps ≡ some p
    → find_payout id (mark_claimed id ps) ≡ some (record p { claimed = true })
unfolding find_payout mark_claimed
find_payout-mark_claimed id [] p e = absurd (ground (arith, ap is_some e))
find_payout-mark_claimed id (q ∷ qs) p e = elim (Bool-cases (q.id == id)) [
  | inl t ↦
      rw (t, find_payout, t)
        (ap {A = PendingPayout} (λ z. some (record z { claimed = true }))
          (payout_eq q p (ap (λ z. if z then some q else find_payout id qs) (sym t) ∙ e)))
  | inr f ↦
      rw (f, find_payout, f)
        (find_payout-mark_claimed id qs p
          (ap (λ z. if z then some q else find_payout id qs) (sym f) ∙ e))
]

-- The payout is among the queued ones, was claimed, and has this user and amount.
pub record Paid (payout id n : ℕ) (ps : List PendingPayout) : Type 0 where
  pub entry : PendingPayout
  pub found : find_payout payout ps ≡ some entry
  pub claimed : entry.claimed ≡ true
  pub amount : entry.amount ≡ n
  pub own : not (entry.user_id == id) ≡ false

find_payout-append :
    (id : ℕ) (ps qs : List PendingPayout) (p : PendingPayout)
    → find_payout id ps ≡ some p
    → find_payout id (ps ++ qs) ≡ some p
unfolding find_payout
find_payout-append id [] qs p e = absurd (ground (arith, ap is_some e))
find_payout-append id (q ∷ ps) qs p e = elim (Bool-cases (q.id == id)) [
  | inl t ↦
      ap (λ z. if z then some q else find_payout id (ps ++ qs)) t
      ∙ ap (λ z. if z then some q else find_payout id ps) (sym t)
      ∙ e
  | inr f ↦
      ap (λ z. if z then some q else find_payout id (ps ++ qs)) f
      ∙ find_payout-append id ps qs p
          (ap (λ z. if z then some q else find_payout id ps) (sym f) ∙ e)
]

module _ (payout id n : ℕ) where
  pub Paid-append : (ps qs : List PendingPayout) → Paid payout id n ps → Paid payout id n (ps ++ qs)
  Paid-append ps qs k = record {
    entry = k.entry;
    found = find_payout-append payout ps qs k.entry k.found;
    claimed = k.claimed;
    amount = k.amount;
    own = k.own;
  }

  Paid-here :
      (q : PendingPayout) (ps : List PendingPayout)
      → q.id == payout ≡ true
      → q.claimed ≡ true
      → q.amount ≡ n
      → not (q.user_id == id) ≡ false
      → Paid payout id n (q ∷ ps)
  unfolding find_payout
  Paid-here q ps t c a o = record {
    entry = q;
    found = ap (λ z. if z then some q else find_payout payout ps) t;
    claimed = c;
    amount = a;
    own = o;
  }

  Paid-there :
      (q : PendingPayout) (ps : List PendingPayout)
      → q.id == payout ≡ false
      → Paid payout id n ps
      → Paid payout id n (q ∷ ps)
  unfolding find_payout
  Paid-there q ps f k = record {
    entry = k.entry;
    found = ap (λ z. if z then some q else find_payout payout ps) f ∙ k.found;
    claimed = k.claimed;
    amount = k.amount;
    own = k.own;
  }

  Paid-tail :
      (q : PendingPayout) (ps : List PendingPayout)
      → q.id == payout ≡ false
      → Paid payout id n (q ∷ ps)
      → Paid payout id n ps
  unfolding find_payout
  Paid-tail q ps f k = record {
    entry = k.entry;
    found = ap (λ z. if z then some q else find_payout payout ps) (sym f) ∙ k.found;
    claimed = k.claimed;
    amount = k.amount;
    own = k.own;
  }

  Paid-head :
      (q : PendingPayout) (ps : List PendingPayout)
      → q.id == payout ≡ true
      → Paid payout id n (q ∷ ps)
      → (q.claimed ≡ true) × (q.amount ≡ n) × (not (q.user_id == id) ≡ false)
  unfolding find_payout
  Paid-head q ps t k =
      let same : q ≡ k.entry =
        payout_eq q k.entry
          (ap (λ z. if z then some q else find_payout payout ps) (sym t) ∙ k.found) in
      (
        ap {A = PendingPayout} (λ z. z.claimed) same ∙ k.claimed,
        ap {A = PendingPayout} (λ z. z.amount) same ∙ k.amount,
        ap {A = PendingPayout} (λ z. not (z.user_id == id)) same ∙ k.own,
      )

  -- The claim of any payout leaves the others as they were.
  pub Paid-mark_claimed :
      (other : ℕ) (ps : List PendingPayout)
      → Paid payout id n ps
      → Paid payout id n (mark_claimed other ps)
  unfolding mark_claimed
  Paid-mark_claimed other [] k = k
  Paid-mark_claimed other (q ∷ ps) k = elim (Bool-cases (q.id == payout)) [
    | inl t ↦
        let (c, a, o) = Paid-head q ps t k in
        if_ind {A = List PendingPayout} (λ z. Paid payout id n z) (q.id == other)
          (λ _. Paid-here (record q { claimed = true }) ps t refl a o)
          (λ _. Paid-here q (mark_claimed other ps) t c a o)
    | inr f ↦
        let rest = Paid-tail q ps f k in
        if_ind {A = List PendingPayout} (λ z. Paid payout id n z) (q.id == other)
          (λ _. Paid-there (record q { claimed = true }) ps f rest)
          (λ _. Paid-there q (mark_claimed other ps) f (Paid-mark_claimed other ps rest))
  ]
