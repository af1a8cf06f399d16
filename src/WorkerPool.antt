-- ===== src/WorkerPool.antt =====
-- The scheduler of workers of shared/workerPool.js. A job is its number, a worker's slot the number of its
-- spawn. Promises are the list of settled jobs, in order; `spawns` and `posts` say whether the worker
-- factory and `postMessage` succeed, and the exit of a terminated worker is an operation of its own.
pub mod Counts
pub mod Drain
pub mod Ready
pub mod Close
pub mod Reach
use package.purecheckers.Base.{
  ℕ, zero, suc, ◌+◌, ◌⊎◌, inl, inr, Bool, true, false, not, ◌&&◌, ◌||◌, ltb, leb, ◌==◌,
  if◌then◌else◌, Option, none, some, List, [], ◌∷◌, ◌++◌, length, map, map,
}

pub record Job : Type 0 where
  pub id : ℕ
  pub priority : ℕ

pub record Slot : Type 0 where
  pub worker : ℕ
  pub job : Option ℕ
  pub retired : Bool

pub data Outcome : Type 0 where
  resolved aborted timeout worker_error failed closed : Outcome

pub data Refusal : Type 0 where
  is_closed is_aborted too_late busy : Refusal

pub record Pool : Type 0 where
  pub size : ℕ
  pub max_queue : ℕ
  pub slots : List Slot
  pub queue : List Job
  pub next_id : ℕ
  pub next_worker : ℕ
  pub stopped : Bool
  pub settled : List (ℕ × Outcome)

abbrev pub fresh_pool : ℕ → ℕ → Pool
fresh_pool size max_queue = record {
  size = size;
  max_queue = max_queue;
  slots = [];
  queue = [];
  next_id = 1;
  next_worker = 0;
  stopped = false;
  settled = [];
}

-- The constructor refuses a pool without workers.
unfoldable pub new_pool : ℕ → ℕ → Option Pool
new_pool size max_queue = if size == 0 then none else some (fresh_pool size max_queue)

abbrev pub is_none : Option ℕ → Bool
is_none none = true
is_none (some j) = false

abbrev pub holds : Option ℕ → ℕ → Bool
holds none j = false
holds (some k) j = k == j

abbrev pub is_idle : Slot → Bool
is_idle s = not s.retired && is_none s.job

unfoldable pub has_idle : List Slot → Bool
has_idle [] = false
has_idle (s ∷ ss) = is_idle s || has_idle ss

-- `sort((a, b) => b.priority - a.priority || a.id - b.id)`.
abbrev pub is_before : Job → Job → Bool
is_before a b = ltb b.priority a.priority || (a.priority == b.priority && leb a.id b.id)

unfoldable pub insert_job : Job → List Job → List Job
insert_job j [] = j ∷ []
insert_job j (k ∷ ks) = if is_before j k then j ∷ k ∷ ks else k ∷ insert_job j ks

unfoldable pub sort_jobs : List Job → List Job
sort_jobs [] = []
sort_jobs (j ∷ js) = insert_job j (sort_jobs js)

-- `queue.splice` of the job, which stands there once at most.
unfoldable pub unqueue : ℕ → List Job → List Job
unqueue j [] = []
unqueue j (k ∷ ks) = if k.id == j then ks else k ∷ unqueue j ks

-- The slot that works on the job has no job now, and is retired if `retire` says so.
unfoldable pub free_slot : ℕ → Bool → List Slot → List Slot
free_slot j retire [] = []
free_slot j retire (s ∷ ss) =
    if holds s.job j
    then record s { job = none; retired = s.retired || retire } ∷ ss
    else s ∷ free_slot j retire ss

unfoldable pub is_settled : List (ℕ × Outcome) → ℕ → Bool
is_settled [] j = false
is_settled ((k, o) ∷ rest) j = k == j || is_settled rest j

-- `finish`, before it drains.
unfoldable pub settle : ℕ → Outcome → Bool → Pool → Pool
settle j o retire p = record p {
  queue = unqueue j p.queue;
  slots = free_slot j retire p.slots;
  settled = p.settled ++ (j, o) ∷ [];
}

-- The first idle slot takes the job.
unfoldable pub assign : ℕ → List Slot → List Slot
assign j [] = []
assign j (s ∷ ss) = if is_idle s then record s { job = some j } ∷ ss else s ∷ assign j ss

abbrev pub spawn : Pool → Pool
spawn p = record p {
  slots = p.slots ++ record { worker = p.next_worker; job = none; retired = false } ∷ [];
  next_worker = p.next_worker + 1;
}

abbrev pub start : Job → List Job → Pool → Pool
start j rest p = record p { queue = rest; slots = assign j.id p.slots }

abbrev pub works_on : ℕ → ℕ → List Slot → Bool
works_on w j [] = false
works_on w j (s ∷ ss) = (s.worker == w && not s.retired && holds s.job j) || works_on w j ss

abbrev pub find_slot : ℕ → List Slot → Option Slot
find_slot w [] = none
find_slot w (s ∷ ss) = if s.worker == w then some s else find_slot w ss

unfoldable pub retire_slot : ℕ → List Slot → List Slot
retire_slot w [] = []
retire_slot w (s ∷ ss) =
    if s.worker == w then record s { retired = true } ∷ ss else s ∷ retire_slot w ss

unfoldable pub drop_retired : ℕ → List Slot → List Slot
drop_retired w [] = []
drop_retired w (s ∷ ss) = if s.worker == w && s.retired then ss else s ∷ drop_retired w ss

abbrev pub job_of : Option ℕ → List ℕ
job_of none = []
job_of (some j) = j ∷ []

abbrev pub running_jobs : List Slot → List ℕ
running_jobs [] = []
running_jobs (s ∷ ss) = job_of s.job ++ running_jobs ss

abbrev pub error_or_result : Bool → Outcome
error_or_result true = worker_error
error_or_result false = resolved

module _ (spawns posts : ℕ → Bool) where
  -- The job at the head of the queue goes to an idle slot; a message that cannot be posted finishes it.
  unfoldable pub start_job : (Pool → Pool) → Job → Pool → Pool
  start_job again j p = elim (posts j.id) [
    | true ↦ again p
    | false ↦ again (again (settle j.id failed true p))
  ]

  -- A round of `drain`: the queue, then `closed`, an idle slot, no room for another, a worker for it.
  unfoldable pub round : (Pool → Pool) → Pool → List Job → Bool → Bool → Bool → Bool → Pool
  round again p [] stopped idle full worker = p
  round again p (j ∷ rest) true idle full worker = p
  round again p (j ∷ rest) false true full worker = start_job again j (start j rest p)
  round again p (j ∷ rest) false false true worker = p
  round again p (j ∷ rest) false false false false =
      again (settle j.id failed false (record p { next_worker = p.next_worker + 1 }))
  round again p (j ∷ rest) false false false true = start_job again j (start j rest (spawn p))

  -- `drain`, with a round of fuel for each queued job; what finishes a job drains again.
  unfoldable pub drain : ℕ → Pool → Pool
  drain zero p = p
  drain (suc fuel) p =
      round (drain fuel) p p.queue p.stopped (has_idle p.slots) (leb p.size (length p.slots))
        (spawns p.next_worker)

  abbrev pub drained : Pool → Pool
  drained p = drain (length p.queue) p

  unfoldable pub finish : ℕ → Outcome → Bool → Pool → Pool
  finish j o retire p = if is_settled p.settled j then p else drained (settle j o retire p)

  -- `run`: the pool, and the job's number or the error of the promise.
  unfoldable pub run : ℕ → Bool → ℕ → Pool → Pool × (Refusal ⊎ ℕ)
  run priority is_cancelled timeout_ms p =
      if p.stopped
      then (p, inl is_closed)
      else if is_cancelled
      then (p, inl is_aborted)
      else if timeout_ms == 0
      then (p, inl too_late)
      else if not (has_idle p.slots)
          && leb p.size (length p.slots)
          && leb p.max_queue (length p.queue)
      then (p, inl busy)
      else (
        drained (record p {
          queue = sort_jobs (p.queue ++ record { id = p.next_id; priority = priority } ∷ []);
          next_id = p.next_id + 1;
        }),
        inr p.next_id,
      )

  -- A message of a worker about a job: one that its slot does not work on is ignored.
  unfoldable pub message : ℕ → ℕ → Bool → Pool → Pool
  message w j is_error p =
      if works_on w j p.slots then finish j (error_or_result is_error) false p else p

  -- An error or an unexpected exit of a worker.
  unfoldable pub fail_slot : ℕ → Pool → Pool
  fail_slot w p = elim (find_slot w p.slots) [
    | none ↦ p
    | some s ↦ if s.retired then p else elim s.job [
      | some j ↦ finish j failed true p
      | none ↦ drained (record p { slots = retire_slot w p.slots })
    ]
  ]

  -- A retired worker has ended.
  unfoldable pub terminated : ℕ → Pool → Pool
  terminated w p = drained (record p { slots = drop_retired w p.slots })

  unfoldable pub finish_all : List ℕ → Pool → Pool
  finish_all [] p = p
  finish_all (j ∷ js) p = finish_all js (finish j closed false p)

  unfoldable pub close : Pool → Pool
  close p =
      let stopping = record p { stopped = true } in
      record (finish_all (map (λ j. j.id) p.queue ++ running_jobs p.slots) stopping) { slots = [] }
