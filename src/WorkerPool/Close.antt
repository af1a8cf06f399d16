-- ===== src/WorkerPool/Close.antt =====
-- Closing a pool settles every job and leaves no worker.
use purecheckers.Base.{
  ℕ, zero, suc, ◌+◌, ◌≤◌, ◌<◌, ◌≡◌, refl, ap, ◌∙◌, inl, inr, Bool, true, false, ◌&&◌, ltb, leb,
  ◌==◌, if◌then◌else◌, if_ind, List, [], ◌∷◌, ◌++◌, map, length, arith,
}
use purecheckers.WorkerPool.{
  Job, Slot, Outcome, Pool, closed, has_idle, is_settled, settle, job_of, running_jobs, round,
  drain, finish, finish_all, close,
}
use purecheckers.WorkerPool.Counts.{
  queued, running, times_settled, settled-times, queued-unqueue, running-free_slot,
  is_settled-times,
}
use purecheckers.WorkerPool.Ready.{IsReady}
use purecheckers.WorkerPool.Drain.{Inv, IsDrained, settle-Inv}

unfoldable occurs : ℕ → List ℕ → ℕ
occurs k [] = 0
occurs k (j ∷ js) = (if j == k then 1 else 0) + occurs k js

occurs-append : (k : ℕ) (xs ys : List ℕ) → occurs k (xs ++ ys) ≡ occurs k xs + occurs k ys
unfolding occurs
occurs-append k [] ys = omega arith
occurs-append k (x ∷ xs) ys = omega (arith, occurs-append k xs ys)

occurs-running : (k : ℕ) (ss : List Slot) → occurs k (running_jobs ss) ≡ running k ss
unfolding occurs running
occurs-running k [] = refl
occurs-running k (s ∷ ss) =
    occurs-append k (job_of s.job) (running_jobs ss) ∙ ground (arith, occurs-running k ss)

occurs-queued : (k : ℕ) (js : List Job) → occurs k (map (λ j. j.id) js) ≡ queued k js
unfolding occurs queued
occurs-queued k [] = refl
occurs-queued k (j ∷ js) = omega (arith, occurs-queued k js)

occurs-jobs :
    (k : ℕ) (js : List Job) (ss : List Slot)
    → occurs k (map (λ j. j.id) js ++ running_jobs ss) ≡ queued k js + running k ss
occurs-jobs k js ss = omega (
  arith,
  occurs-append k (map (λ j. j.id) js) (running_jobs ss),
  occurs-queued k js,
  occurs-running k ss,
)

none_queued : (js : List Job) → ((k : ℕ) → queued k js ≡ 0) → js ≡ []
unfolding queued
none_queued [] h = refl
none_queued (j ∷ js) h = absurd (ground (arith, h j.id))

running_nil : (k : ℕ) → running k [] ≡ 0
unfolding running
running_nil k = refl

is_stopped : (p : Pool) → p.stopped ≡ true → IsDrained p
unfolding IsDrained
is_stopped p h = inr (inl h)

module _ (spawns posts : ℕ → Bool) where
  -- A stopped pool starts nothing.
  drain-stopped : (fuel : ℕ) (p : Pool) → p.stopped ≡ true → drain spawns posts fuel p ≡ p
  unfolding drain round
  drain-stopped zero p h = refl
  drain-stopped (suc fuel) p h = stops p.queue p.stopped h
    where
      stops :
          (q : List Job) (stopped : Bool)
          → stopped ≡ true
          → round spawns posts
              (drain spawns posts fuel)
              p
              q
              stopped
              (has_idle p.slots)
              (leb p.size (length p.slots))
              (spawns p.next_worker)
            ≡ p
      stops [] stopped e = refl
      stops (j ∷ rest) true e = refl
      stops (j ∷ rest) false e = cc

  finish-stopped :
      (p : Pool) (j : ℕ) (o : Outcome)
      → p.stopped ≡ true
      → finish spawns posts j o false p ≡ (if is_settled p.settled j then p else settle j o false p)
  unfolding finish settle
  finish-stopped p j o h =
      ap (λ z. if is_settled p.settled j then p else z)
        (drain-stopped (length (settle j o false p).queue) (settle j o false p) h)

  -- What is left of a stopped pool of which the jobs `js` are still to be settled.
  record Stopping (js : List ℕ) (p : Pool) : Type 0 where
    inv : Inv p
    stopped : p.stopped ≡ true
    left : (k : ℕ) → queued k p.queue + running k p.slots ≤ occurs k js
    known : (k : ℕ) → 1 ≤ occurs k js → (1 ≤ k) × (k < p.next_id)

  settle-Stopping :
      (j : ℕ) (js : List ℕ) (p : Pool)
      → Stopping (j ∷ js) p
      → is_settled p.settled j ≡ false
      → Stopping js (settle j closed false p)
  unfolding settle occurs
  settle-Stopping j js p s t =
      let (a, b) = s.known j (ground arith) in
      let live : 1 ≤ queued j p.queue + running j p.slots =
        ground (arith, s.inv.placed j, is_settled-times j p.settled t) in
      record {
        inv = settle-Inv p j closed false s.inv live;
        stopped = s.stopped;
        left = λ k. ground (
          arith,
          s.left k,
          s.inv.placed j,
          s.inv.placed k,
          queued-unqueue k j p.queue,
          running-free_slot k j false p.slots,
        );
        known = λ k h. s.known k (omega arith);
      }

  finish-Stopping :
      (j : ℕ) (js : List ℕ) (p : Pool)
      → Stopping (j ∷ js) p
      → Stopping js (finish spawns posts j closed false p)
  unfolding occurs
  finish-Stopping j js p s = rw (finish-stopped p j closed s.stopped) (
      if_ind (Stopping js) (is_settled p.settled j)
        (λ t. record {
          inv = s.inv;
          stopped = s.stopped;
          left = λ k. ground (arith, s.left k, settled-times j p.settled t, s.inv.placed j);
          known = λ k h. s.known k (omega arith);
        })
        (λ t. settle-Stopping j js p s t))

  finish_all-Stopping :
      (js : List ℕ) (p : Pool) → Stopping js p → Stopping [] (finish_all spawns posts js p)
  unfolding finish_all
  finish_all-Stopping [] p s = s
  finish_all-Stopping (j ∷ js) p s =
      finish_all-Stopping js (finish spawns posts j closed false p) (finish-Stopping j js p s)

  closed-Stopping :
      (p : Pool)
      → Inv p
      → Stopping (map (λ j. j.id) p.queue ++ running_jobs p.slots) (record p { stopped = true })
  closed-Stopping p v = record {
    inv = record { placed = v.placed; first = v.first; capacity = v.capacity; resting = v.resting };
    stopped = refl;
    left = λ k. omega (arith, occurs-jobs k p.queue p.slots);
    known = λ k h. (
      ground (arith, occurs-jobs k p.queue p.slots, v.placed k),
      ground (arith, occurs-jobs k p.queue p.slots, v.placed k),
    );
  }

  -- Closing a pool between two calls leaves no job and no worker: each job that was accepted is settled,
  -- and settled once.
  pub close-settles :
      (p : Pool)
      → IsReady p
      → let q = close spawns posts p in
        (q.queue ≡ [])
        × (q.slots ≡ [])
        × (q.stopped ≡ true)
        × ((j : ℕ) → times_settled j q.settled ≡ (if leb 1 j && ltb j q.next_id then 1 else 0))
  unfolding close occurs
  close-settles p r =
      let q =
        finish_all spawns posts (map (λ j. j.id) p.queue ++ running_jobs p.slots)
          (record p { stopped = true }) in
      let s =
        finish_all-Stopping (map (λ j. j.id) p.queue ++ running_jobs p.slots)
          (record p { stopped = true }) (closed-Stopping p r.inv) in
      (
        none_queued q.queue (λ k. omega (arith, s.left k)),
        refl,
        s.stopped,
        λ k. omega (arith, s.left k, s.inv.placed k),
      )

  pub close-IsReady : (p : Pool) → IsReady p → IsReady (close spawns posts p)
  unfolding close occurs
  close-IsReady p r =
      let s =
        finish_all-Stopping (map (λ j. j.id) p.queue ++ running_jobs p.slots)
          (record p { stopped = true }) (closed-Stopping p r.inv) in
      let q =
        finish_all spawns posts (map (λ j. j.id) p.queue ++ running_jobs p.slots)
          (record p { stopped = true }) in
      let nothing = none_queued q.queue (λ k. omega (arith, s.left k)) in
      record {
        inv = record {
          placed = λ k. omega (arith, s.left k, s.inv.placed k, running_nil k);
          first = s.inv.first;
          capacity = omega arith;
          resting = tt;
        };
        drained = is_stopped (record q { slots = [] }) s.stopped;
        bounded = omega (arith, ap length nothing);
      }
