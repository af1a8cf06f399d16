-- ===== src/WorkerPool/Ready.antt =====
-- What holds of a pool between two calls, and that every call and event but `close` keeps it.
use purecheckers.Base.{
  length-append_one, ℕ, ◌+◌, ◌≤◌, ◌<◌, ◌≡◌, refl, ap, ◌∙◌, ◌⊎◌, inl, inr, Bool, true, false, not,
  ◌&&◌, leb, ◌==◌, if_ind, Bool-cases, Option-cases, Option, none, some, List, [], ◌∷◌, ◌++◌,
  length, arith,
}
use purecheckers.WorkerPool.{
  Job, Slot, Outcome, Pool, Refusal, failed, has_idle, sort_jobs, is_settled, settle, works_on,
  find_slot, retire_slot, drop_retired, drain, finish, run, message, error_or_result, fail_slot,
  terminated,
}
use purecheckers.WorkerPool.Counts.{
  queued, running, queued-sort, length-sort, queued-append, running-retire, length-retire,
  length-drop, length-unqueue, is_settled-times,
}
use purecheckers.WorkerPool.Drain.{Resting, Inv, IsDrained, Drains, settle-Inv, drain-Drains}

-- A pool between two calls.
pub record IsReady (p : Pool) : Type 0 where
  pub inv : Inv p
  pub drained : IsDrained p
  pub bounded : length p.queue ≤ p.max_queue

Drains-IsReady : (p q : Pool) → length p.queue ≤ p.max_queue → Drains p q → IsReady q
Drains-IsReady p q h d = record {
  inv = d.inv;
  drained = d.drained;
  bounded = omega (arith, d.shorter, d.same.1);
}

retire-Resting :
    (w : ℕ) (ss : List Slot) (s : Slot)
    → find_slot w ss ≡ some s
    → s.job ≡ none
    → Resting ss
    → Resting (retire_slot w ss)
unfolding retire_slot
retire-Resting w [] s e n r = tt
retire-Resting w (x ∷ ss) s e n r = elim (Bool-cases (x.worker == w)) [
  | inl t ↦ rw t ((λ _. ground arith), r.1)
  | inr t ↦ rw t (r.0, retire-Resting w ss s (ground arith) n r.1)
]

drop-Resting : (w : ℕ) (ss : List Slot) → Resting ss → Resting (drop_retired w ss)
unfolding drop_retired
drop-Resting w [] r = tt
drop-Resting w (x ∷ ss) r = elim (Bool-cases (x.worker == w && x.retired)) [
  | inl t ↦ rw t r.1
  | inr t ↦ rw t (r.0, drop-Resting w ss r.1)
]

running-drop :
    (j w : ℕ) (ss : List Slot) → Resting ss → running j (drop_retired w ss) ≡ running j ss
unfolding running drop_retired
running-drop j w [] r = refl
running-drop j w (x ∷ ss) r = ground (arith, running-drop j w ss r.1, r.0)

works_on-running : (w j : ℕ) (ss : List Slot) → works_on w j ss ≡ true → 1 ≤ running j ss
unfolding running
works_on-running w j [] h = absurd (ground arith)
works_on-running w j (s ∷ ss) h = ground (arith, works_on-running w j ss)

find-running :
    (w j : ℕ) (ss : List Slot) (s : Slot)
    → find_slot w ss ≡ some s
    → s.job ≡ some j
    → 1 ≤ running j ss
unfolding running
find-running w j [] s e h = absurd (ground arith)
find-running w j (x ∷ ss) s e h = ground (arith, find-running w j ss s)

module _ (spawns posts : ℕ → Bool) where
  drained-Drains : (p : Pool) → Inv p → Drains p (drain spawns posts (length p.queue) p)
  drained-Drains p v = drain-Drains spawns posts (length p.queue) p v (omega arith)

  settle-max :
      (p : Pool) (j : ℕ) (o : Outcome) (retire : Bool)
      → length p.queue ≤ p.max_queue
      → length (settle j o retire p).queue ≤ (settle j o retire p).max_queue
  unfolding settle
  settle-max p j o retire h = omega (arith, length-unqueue j p.queue)

  pub finish-IsReady :
      (p : Pool) (j : ℕ) (o : Outcome) (retire : Bool)
      → IsReady p
      → 1 ≤ j
      → j < p.next_id
      → IsReady (finish spawns posts j o retire p)
  unfolding finish
  finish-IsReady p j o retire r a b = elim (Bool-cases (is_settled p.settled j)) [
    | inl t ↦ rw t r
    | inr t ↦
        let live : 1 ≤ queued j p.queue + running j p.slots =
          ground (arith, r.inv.placed j, is_settled-times j p.settled) in
        rw t (
          Drains-IsReady (settle j o retire p) _ (settle-max p j o retire r.bounded)
            (drained-Drains (settle j o retire p) (settle-Inv p j o retire r.inv live)))
  ]

  given : (p : Pool) (j : ℕ) → Inv p → 1 ≤ running j p.slots → (1 ≤ j) × (j < p.next_id)
  given p j v h = (ground (arith, v.placed j), ground (arith, v.placed j))

  pub message-IsReady :
      (p : Pool) (w j : ℕ) (is_error : Bool)
      → IsReady p
      → IsReady (message spawns posts w j is_error p)
  unfolding message
  message-IsReady p w j is_error r = elim (Bool-cases (works_on w j p.slots)) [
    | inr t ↦ rw t r
    | inl t ↦
        let (a, b) = given p j r.inv (works_on-running w j p.slots t) in
        rw t (finish-IsReady p j (error_or_result is_error) false r a b)
  ]

  pub terminated-IsReady : (p : Pool) (w : ℕ) → IsReady p → IsReady (terminated spawns posts w p)
  unfolding terminated
  terminated-IsReady p w r =
      let q = record p { slots = drop_retired w p.slots } in
      Drains-IsReady q _ r.bounded (
        drained-Drains q (record {
          placed = λ j. ground (arith, r.inv.placed j, running-drop j w p.slots r.inv.resting);
          first = r.inv.first;
          capacity = omega (arith, r.inv.capacity, length-drop w p.slots);
          resting = drop-Resting w p.slots r.inv.resting;
        }))

  pub fail_slot-IsReady : (p : Pool) (w : ℕ) → IsReady p → IsReady (fail_slot spawns posts w p)
  unfolding fail_slot
  fail_slot-IsReady p w r = elim (Option-cases (find_slot w p.slots)) [
    | inl e ↦ rw (e, fail_slot) r
    | inr (s, e) ↦ failed-IsReady s e s.retired s.job refl refl
  ]
    where
      q : Pool
      q = record p { slots = retire_slot w p.slots }

      failed-IsReady :
          (s : Slot)
          → find_slot w p.slots ≡ some s
          → (gone : Bool) (job : Option ℕ) → s.retired ≡ gone
          → s.job ≡ job
          → IsReady (fail_slot spawns posts w p)
      failed-IsReady s e true job g n = rw (e, fail_slot, g) r
      failed-IsReady s e false none g n =
          rw (e, fail_slot, g, n)
            (Drains-IsReady q _ r.bounded (
              drained-Drains q (record {
                placed = λ j. omega (arith, r.inv.placed j, running-retire j w p.slots);
                first = r.inv.first;
                capacity = omega (arith, r.inv.capacity, length-retire w p.slots);
                resting = retire-Resting w p.slots s e n r.inv.resting;
              })))
      failed-IsReady s e false (some j) g n =
          let (a, b) = given p j r.inv (find-running w j p.slots s e n) in
          rw (e, fail_slot, g, n) (finish-IsReady p j failed true r a b)

  idle-empty :
      (p : Pool)
      → IsDrained p
      → p.stopped ≡ false
      → (has_idle p.slots ≡ true) ⊎ (length p.slots < p.size)
      → p.queue ≡ []
  unfolding IsDrained
  idle-empty p (inl e) s h = e
  idle-empty p (inr (inl t)) s h = cc
  idle-empty p (inr (inr (i, f))) s (inl h) = cc
  idle-empty p (inr (inr (i, f))) s (inr h) = absurd (omega arith)

  accepted :
      (p : Pool) (priority : ℕ)
      → IsReady p
      → p.stopped ≡ false
      → ((has_idle p.slots ≡ true) ⊎ (length p.slots < p.size)) ⊎ (length p.queue < p.max_queue)
      → let q = record p {
        queue = sort_jobs (p.queue ++ record { id = p.next_id; priority = priority } ∷ []);
        next_id = p.next_id + 1;
      } in
        IsReady (drain spawns posts (length q.queue) q)
  accepted p priority r s h =
      let j : Job = record { id = p.next_id; priority = priority } in
      let q = record p { queue = sort_jobs (p.queue ++ j ∷ []); next_id = p.next_id + 1 } in
      let d = drained-Drains q (record {
        placed = λ k. ground (
          arith,
          r.inv.placed k,
          r.inv.first,
          queued-sort k (p.queue ++ j ∷ []),
          queued-append k p.queue j,
        );
        first = omega arith;
        capacity = r.inv.capacity;
        resting = r.inv.resting;
      }) in
      let size : length q.queue ≡ length p.queue + 1 =
        length-sort (p.queue ++ j ∷ []) ∙ length-append_one p.queue j in
      record {
        inv = d.inv;
        drained = d.drained;
        bounded = elim h [
          | inl free ↦
              omega
                (arith, size, d.served s free, d.same.1, ap length (idle-empty p r.drained s free))
          | inr few ↦ omega (arith, size, d.shorter, d.same.1)
        ];
      }

  pub run-IsReady :
      (p : Pool) (priority : ℕ) (is_cancelled : Bool) (timeout_ms : ℕ)
      → IsReady p
      → IsReady (run spawns posts priority is_cancelled timeout_ms p).0
  unfolding run
  run-IsReady p priority is_cancelled timeout_ms r =
      if_ind {A = Pool × (Refusal ⊎ ℕ)} (λ z. IsReady z.0) p.stopped (λ _. r)
        (λ open_.
          if_ind {A = Pool × (Refusal ⊎ ℕ)} (λ z. IsReady z.0) is_cancelled (λ _. r)
            (λ _.
              if_ind {A = Pool × (Refusal ⊎ ℕ)} (λ z. IsReady z.0) (timeout_ms == 0) (λ _. r)
                (λ _.
                  if_ind {A = Pool × (Refusal ⊎ ℕ)} (λ z. IsReady z.0)
                    (not (has_idle p.slots)
                      && leb p.size (length p.slots)
                      && leb p.max_queue (length p.queue))
                    (λ _. r) (λ room. accepted p priority r open_ (ground arith)))))
