-- ===== src/WorkerPool/Drain.antt =====
-- What `drain` and `finish` keep, and that `drain` leaves no job waiting that could be started.
use purecheckers.Base.{
  length-append_one, ℕ, zero, suc, ◌+◌, ◌-◌, ◌≤◌, ◌<◌, ◌≡◌, refl, ap, subst, ◌∙◌, ◌⊎◌, inl, inr,
  Bool, true, false, ◌&&◌, ltb, leb, if◌then◌else◌, Bool-cases, list_cases, none, List, [], ◌∷◌,
  ◌++◌, length, arith,
}
use purecheckers.WorkerPool.{
  Job, Slot, Outcome, Pool, failed, is_none, holds, is_idle, has_idle, unqueue, free_slot, settle,
  assign, spawn, start, start_job, round, drain,
}
use purecheckers.WorkerPool.Counts.{
  queued, running, times_settled, queued-unqueue, running-free_slot, running-assign, running-append,
  times_settled-append, length-free_slot, length-assign, length-unqueue,
}

-- A retired slot has no job.
abbrev pub Resting : List Slot → Type 0
Resting [] = Unit {0}
Resting (s ∷ ss) = (s.retired ≡ true → is_none s.job ≡ true) × Resting ss

-- Of each number that was given out, the one job is queued, or runs, or is settled, and settled once.
pub record Inv (p : Pool) : Type 0 where
  pub placed :
      (j : ℕ)
      → queued j p.queue + running j p.slots + times_settled j p.settled
        ≡ (if leb 1 j && ltb j p.next_id then 1 else 0)
  pub first : 1 ≤ p.next_id
  pub capacity : length p.slots ≤ p.size
  pub resting : Resting p.slots

free_slot-Resting :
    (j : ℕ) (retire : Bool) (ss : List Slot) → Resting ss → Resting (free_slot j retire ss)
unfolding free_slot
free_slot-Resting j retire [] r = tt
free_slot-Resting j retire (s ∷ ss) r = elim (Bool-cases (holds s.job j)) [
  | inl t ↦ rw t ((λ h. refl), r.1)
  | inr t ↦ rw t (r.0, free_slot-Resting j retire ss r.1)
]

assign-Resting : (j : ℕ) (ss : List Slot) → Resting ss → Resting (assign j ss)
unfolding assign
assign-Resting j [] r = tt
assign-Resting j (s ∷ ss) r = elim (Bool-cases (is_idle s)) [
  | inl t ↦ rw t ((λ h. absurd (ground arith)), r.1)
  | inr t ↦ rw t (r.0, assign-Resting j ss r.1)
]

append-Resting :
    (ss : List Slot) (s : Slot) → s.retired ≡ false → Resting ss → Resting (ss ++ s ∷ [])
append-Resting [] s e r = ((λ h. cc), tt)
append-Resting (x ∷ ss) s e r = (r.0, append-Resting ss s e r.1)

pub settle-Inv :
    (p : Pool) (j : ℕ) (o : Outcome) (retire : Bool)
    → Inv p
    → 1 ≤ queued j p.queue + running j p.slots
    → Inv (settle j o retire p)
unfolding settle
settle-Inv p j o retire v h =
    let own = v.placed j in
    record {
      placed = λ k. ground (
        arith,
        v.placed k,
        own,
        queued-unqueue k j p.queue,
        running-free_slot k j retire p.slots,
        times_settled-append k j o p.settled,
      );
      first = v.first;
      capacity = omega (arith, length-free_slot j retire p.slots, v.capacity);
      resting = free_slot-Resting j retire p.slots v.resting;
    }

start-Inv :
    (p : Pool) (j : Job) (rest : List Job)
    → Inv p
    → p.queue ≡ j ∷ rest
    → has_idle p.slots ≡ true
    → Inv (start j rest p)
unfolding queued
start-Inv p j rest v e idle = record {
  placed = λ k.
      let old =
        subst
          (λ z.
            queued k z + running k p.slots + times_settled k p.settled
            ≡ (if leb 1 k && ltb k p.next_id then 1 else 0))
          e (v.placed k) in
      ground (arith, old, running-assign k j.id p.slots idle);
  first = v.first;
  capacity = omega (arith, length-assign j.id p.slots, v.capacity);
  resting = assign-Resting j.id p.slots v.resting;
}

started :
    (p : Pool) (j : Job) (rest : List Job)
    → has_idle p.slots ≡ true
    → 1 ≤ queued j.id (start j rest p).queue + running j.id (start j rest p).slots
started p j rest idle = ground (arith, running-assign j.id j.id p.slots idle)

spawn-Inv : (p : Pool) → Inv p → length p.slots < p.size → Inv (spawn p)
spawn-Inv p v h = record {
  placed = λ k. omega (
    arith,
    v.placed k,
    running-append k p.slots (record { worker = p.next_worker; job = none; retired = false }) refl,
  );
  first = v.first;
  capacity = omega (
    arith,
    length-append_one p.slots (record { worker = p.next_worker; job = none; retired = false }),
  );
  resting =
      append-Resting p.slots (record { worker = p.next_worker; job = none; retired = false }) refl
        v.resting;
}

idle-append : (ss : List Slot) (s : Slot) → is_idle s ≡ true → has_idle (ss ++ s ∷ []) ≡ true
unfolding has_idle
idle-append [] s e = ground arith
idle-append (x ∷ ss) s e = ground (arith, idle-append ss s e)

head-queued : (p : Pool) (j : Job) (rest : List Job) → p.queue ≡ j ∷ rest → 1 ≤ queued j.id p.queue
unfolding queued
head-queued p j rest e = rw e (ground arith)

-- Nothing that is queued could be started, unless the pool is stopped.
unfoldable pub IsDrained : Pool → Type 0
IsDrained p =
    (p.queue ≡ []) ⊎ (p.stopped ≡ true) ⊎ ((has_idle p.slots ≡ false) × (p.size ≤ length p.slots))

-- What `drain` leaves alone.
abbrev pub Same : Pool → Pool → Type 0
Same p q =
    (q.size ≡ p.size)
    × (q.max_queue ≡ p.max_queue)
    × (q.next_id ≡ p.next_id)
    × (q.stopped ≡ p.stopped)

-- What `drain` makes of `p`.
pub record Drains (p q : Pool) : Type 0 where
  pub inv : Inv q
  pub drained : IsDrained q
  pub same : Same p q
  pub shorter : length q.queue ≤ length p.queue
  pub served :
      p.stopped ≡ false
      → (has_idle p.slots ≡ true) ⊎ (length p.slots < p.size)
      → length q.queue ≤ length p.queue - 1

after-Drains :
    (p p' q : Pool) → Same p p' → length p'.queue + 1 ≤ length p.queue → Drains p' q → Drains p q
after-Drains p p' q same less d = record {
  inv = d.inv;
  drained = d.drained;
  same = (d.same.0 ∙ same.0, d.same.1 ∙ same.1, d.same.2 ∙ same.2, d.same.3 ∙ same.3);
  shorter = omega (arith, d.shorter);
  served = λ _ _. omega (arith, d.shorter);
}

rests :
    (p : Pool)
    → Inv p
    → IsDrained p
    → (p.stopped ≡ false
        → (has_idle p.slots ≡ true) ⊎ (length p.slots < p.size)
        → length p.queue ≤ length p.queue - 1)
    → Drains p p
rests p v d s = record {
  inv = v;
  drained = d;
  same = (refl, refl, refl, refl);
  shorter = omega arith;
  served = s;
}

head-unqueue :
    (p : Pool) (j : Job) (rest : List Job)
    → p.queue ≡ j ∷ rest
    → length (unqueue j.id p.queue) ≤ length rest
unfolding unqueue
head-unqueue p j rest e = rw e (ground arith)

lost-shorter :
    (p : Pool) (j : Job) (rest : List Job)
    → p.queue ≡ j ∷ rest
    → length (settle j.id failed false p).queue ≤ length rest
unfolding settle
lost-shorter p j rest e = head-unqueue p j rest e

settle-Same : (p : Pool) (j : ℕ) → Same p (settle j failed false p)
unfolding settle
settle-Same p j = (refl, refl, refl, refl)

from_spawn : (p q : Pool) → Drains (spawn p) q → Drains p q
from_spawn p q d = record {
  inv = d.inv;
  drained = d.drained;
  same = d.same;
  shorter = d.shorter;
  served = λ f _. d.served f (
      inl (
        idle-append p.slots (record { worker = p.next_worker; job = none; retired = false }) refl));
}

module _ (spawns posts : ℕ → Bool) where
  -- A job that starts, on a pool that has an idle slot.
  started-Drains :
      (fuel : ℕ) (p : Pool) (j : Job) (rest : List Job)
      → ((q : Pool) → Inv q → length q.queue ≤ fuel → Drains q (drain spawns posts fuel q))
      → Inv p
      → p.queue ≡ j ∷ rest
      → has_idle p.slots ≡ true
      → length rest ≤ fuel
      → Drains p (start_job spawns posts (drain spawns posts fuel) j (start j rest p))
  unfolding settle start_job
  started-Drains fuel p j rest ih v e idle less =
      let size : length p.queue ≡ length rest + 1 = ap length e ∙ omega arith in
      let begun = start-Inv p j rest v e idle in
      elim (Bool-cases (posts j.id)) [
        | inl t ↦
            rw (t, start_job)
              (after-Drains p (start j rest p) _ (refl, refl, refl, refl) (omega arith)
                (ih (start j rest p) begun less))
        | inr t ↦
            let lost = settle j.id failed true (start j rest p) in
            let short = length-unqueue j.id rest in
            let first =
              ih lost (settle-Inv (start j rest p) j.id failed true begun (started p j rest idle))
                (omega (arith, short)) in
            let again =
              ih (drain spawns posts fuel lost) first.inv (omega (arith, short, first.shorter)) in
            rw (t, start_job)
              (after-Drains p (drain spawns posts fuel lost) _
                (first.same.0, first.same.1, first.same.2, first.same.3)
                (omega (arith, short, first.shorter)) again)
      ]

  branch-Drains :
      (fuel : ℕ) (p : Pool)
      → ((q : Pool) → Inv q → length q.queue ≤ fuel → Drains q (drain spawns posts fuel q))
      → Inv p
      → length p.queue ≤ suc fuel
      → (q : List Job) (stopped idle full worker : Bool) → p.queue ≡ q
      → p.stopped ≡ stopped
      → has_idle p.slots ≡ idle
      → leb p.size (length p.slots) ≡ full
      → Drains p (round spawns posts (drain spawns posts fuel) p q stopped idle full worker)
  unfolding round IsDrained
  branch-Drains fuel p ih v h [] stopped idle full worker e t i f =
      rests p v (inl e) (λ _ _. omega (arith, ap length e))
  branch-Drains fuel p ih v h (j ∷ rest) true idle full worker e t i f =
      rests p v (inr (inl t)) (λ k _. cc)
  branch-Drains fuel p ih v h (j ∷ rest) false true full worker e t i f =
      started-Drains fuel p j rest ih v e i (omega (arith, ap length e))
  branch-Drains fuel p ih v h (j ∷ rest) false false true worker e t i f =
      rests p v (inr (inr (i, ground arith)))
        (λ _ open_. elim open_ [ inl k ↦ cc | inr k ↦ absurd (ground arith) ])
  branch-Drains fuel p ih v h (j ∷ rest) false false false false e t i f =
      let size : length p.queue ≡ length rest + 1 = ap length e ∙ omega arith in
      let tried = record p { next_worker = p.next_worker + 1 } in
      let lost = settle j.id failed false tried in
      let short = lost-shorter tried j rest e in
      after-Drains p lost _ (settle-Same tried j.id) (omega (arith, short)) (
        ih lost
          (settle-Inv tried j.id failed false
            (record {
              placed = v.placed;
              first = v.first;
              capacity = v.capacity;
              resting = v.resting;
            })
            (omega (arith, head-queued p j rest e)))
          (omega (arith, short)))
  branch-Drains fuel p ih v h (j ∷ rest) false false false true e t i f =
      let idle =
        idle-append p.slots (record { worker = p.next_worker; job = none; retired = false }) refl in
      let size : length p.queue ≡ length rest + 1 = ap length e ∙ omega arith in
      from_spawn p _ (
        started-Drains fuel (spawn p) j rest ih (spawn-Inv p v (ground arith)) e idle (omega arith))

  pub drain-Drains :
      (fuel : ℕ) (p : Pool) → Inv p → length p.queue ≤ fuel → Drains p (drain spawns posts fuel p)
  unfolding drain IsDrained
  drain-Drains zero p v h = elim (list_cases p.queue) [
    | inl e ↦ rests p v (inl e) (λ _ _. omega arith)
    | inr (j, rest, e) ↦ absurd (omega (arith, ap length e))
  ]
  drain-Drains (suc fuel) p v h =
      branch-Drains fuel p (drain-Drains fuel) v h p.queue p.stopped (has_idle p.slots)
        (leb p.size (length p.slots)) (spawns p.next_worker) refl refl refl refl
