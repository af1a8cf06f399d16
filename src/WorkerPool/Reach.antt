-- ===== src/WorkerPool/Reach.antt =====
-- What holds of every pool that calls and events of its workers reach.
use purecheckers.Base.{
  ℕ, ◌≤◌, ◌<◌, ◌≡◌, refl, subst, inl, inr, Bool, true, ◌==◌, Bool-cases, some, arith,
}
use purecheckers.WorkerPool.{
  Pool, fresh_pool, aborted, timeout, new_pool, finish, run, message, fail_slot, terminated, close,
}
use purecheckers.WorkerPool.Counts.{queued, running, times_settled}
use purecheckers.WorkerPool.Drain.{IsDrained}
use purecheckers.WorkerPool.Ready.{
  IsReady, finish-IsReady, message-IsReady, terminated-IsReady, fail_slot-IsReady, run-IsReady,
}
use purecheckers.WorkerPool.Close.{close-IsReady}

module _ (spawns posts : ℕ → Bool) where
  -- The pools that calls and events reach; a job that is not settled may be cancelled or time out.
  pub data Reached : Pool → Type 0 where
    creates : {p : Pool} (size max_queue : ℕ) → new_pool size max_queue ≡ some p → Reached p
    runs :
        {p : Pool} (priority : ℕ) (is_cancelled : Bool) (timeout_ms : ℕ)
        → Reached p
        → Reached (run spawns posts priority is_cancelled timeout_ms p).0
    cancels :
        {p : Pool} (j : ℕ)
        → 1 ≤ j
        → j < p.next_id
        → Reached p
        → Reached (finish spawns posts j aborted true p)
    expires :
        {p : Pool} (j : ℕ)
        → 1 ≤ j
        → j < p.next_id
        → Reached p
        → Reached (finish spawns posts j timeout true p)
    answers :
        {p : Pool} (w j : ℕ) (is_error : Bool)
        → Reached p
        → Reached (message spawns posts w j is_error p)
    fails : {p : Pool} (w : ℕ) → Reached p → Reached (fail_slot spawns posts w p)
    ends : {p : Pool} (w : ℕ) → Reached p → Reached (terminated spawns posts w p)
    closes : {p : Pool} → Reached p → Reached (close spawns posts p)

  fresh-IsReady : (size max_queue : ℕ) → IsReady (fresh_pool size max_queue)
  unfolding queued running times_settled IsDrained
  fresh-IsReady size max_queue = record {
    inv = record {
      placed = λ j. ground arith;
      first = omega arith;
      capacity = omega arith;
      resting = tt;
    };
    drained = inl refl;
    bounded = omega arith;
  }

  new_pool-IsReady : (p : Pool) (size max_queue : ℕ) → new_pool size max_queue ≡ some p → IsReady p
  unfolding new_pool
  new_pool-IsReady p size max_queue e = elim (Bool-cases (size == 0)) [
    | inl t ↦ absurd (ground arith)
    | inr t ↦
        let same : fresh_pool size max_queue ≡ p = ground arith in
        subst IsReady same (fresh-IsReady size max_queue)
  ]

  -- In every reached pool each accepted job is in exactly one place: queued, on a worker, or settled
  -- once; there are no more workers than the pool's size and no longer a queue than its limit; and no
  -- job waits while a worker is idle or could be spawned, unless the pool is closed.
  pub Reached-IsReady : {p : Pool} → Reached p → IsReady p
  Reached-IsReady (creates {p = p} size max_queue e) = new_pool-IsReady p size max_queue e
  Reached-IsReady (runs {p = p} priority is_cancelled timeout_ms r) =
      run-IsReady spawns posts p priority is_cancelled timeout_ms (Reached-IsReady r)
  Reached-IsReady (cancels {p = p} j a b r) =
      finish-IsReady spawns posts p j aborted true (Reached-IsReady r) a b
  Reached-IsReady (expires {p = p} j a b r) =
      finish-IsReady spawns posts p j timeout true (Reached-IsReady r) a b
  Reached-IsReady (answers {p = p} w j is_error r) =
      message-IsReady spawns posts p w j is_error (Reached-IsReady r)
  Reached-IsReady (fails {p = p} w r) = fail_slot-IsReady spawns posts p w (Reached-IsReady r)
  Reached-IsReady (ends {p = p} w r) = terminated-IsReady spawns posts p w (Reached-IsReady r)
  Reached-IsReady (closes {p = p} r) = close-IsReady spawns posts p (Reached-IsReady r)
