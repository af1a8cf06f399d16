-- ===== src/WorkerPool/Counts.antt =====
-- Where a job is: how often it stands in the queue, in a slot, and among the settled.
use purecheckers.Base.{
  ℕ, ◌+◌, ◌-◌, ◌≤◌, ◌≡◌, refl, Bool, true, false, ◌==◌, if◌then◌else◌, none, List, [], ◌∷◌, ◌++◌,
  length, arith,
}
use purecheckers.WorkerPool.{
  Job, Slot, Outcome, holds, has_idle, insert_job, sort_jobs, unqueue, free_slot, is_settled,
  assign, retire_slot, drop_retired,
}

unfoldable pub queued : ℕ → List Job → ℕ
queued j [] = 0
queued j (k ∷ ks) = (if k.id == j then 1 else 0) + queued j ks

unfoldable pub running : ℕ → List Slot → ℕ
running j [] = 0
running j (s ∷ ss) = (if holds s.job j then 1 else 0) + running j ss

unfoldable pub times_settled : ℕ → List (ℕ × Outcome) → ℕ
times_settled j [] = 0
times_settled j ((k, o) ∷ rest) = (if k == j then 1 else 0) + times_settled j rest

pub queued-unqueue :
    (j k : ℕ) (ks : List Job)
    → queued j (unqueue k ks) ≡ (if k == j then queued j ks - 1 else queued j ks)
unfolding queued unqueue
queued-unqueue j k [] = ground arith
queued-unqueue j k (x ∷ ks) = ground (arith, queued-unqueue j k ks)

pub running-free_slot :
    (j k : ℕ) (retire : Bool) (ss : List Slot)
    → running j (free_slot k retire ss) ≡ (if k == j then running j ss - 1 else running j ss)
unfolding running free_slot
running-free_slot j k retire [] = ground arith
running-free_slot j k retire (s ∷ ss) = ground (arith, running-free_slot j k retire ss)

pub running-assign :
    (j k : ℕ) (ss : List Slot)
    → has_idle ss ≡ true
    → running j (assign k ss) ≡ running j ss + (if k == j then 1 else 0)
unfolding running assign has_idle
running-assign j k [] h = absurd (ground arith)
running-assign j k (s ∷ ss) h = ground (arith, running-assign j k ss)

pub running-append :
    (j : ℕ) (ss : List Slot) (s : Slot) → s.job ≡ none → running j (ss ++ s ∷ []) ≡ running j ss
unfolding running
running-append j [] s e = ground arith
running-append j (x ∷ ss) s e = omega (arith, running-append j ss s e)

pub times_settled-append :
    (j k : ℕ) (o : Outcome) (rest : List (ℕ × Outcome))
    → times_settled j (rest ++ (k, o) ∷ []) ≡ times_settled j rest + (if k == j then 1 else 0)
unfolding times_settled
times_settled-append j k o [] = ground arith
times_settled-append j k o (x ∷ rest) = ground (arith, times_settled-append j k o rest)

pub is_settled-times :
    (j : ℕ) (rest : List (ℕ × Outcome)) → is_settled rest j ≡ false → times_settled j rest ≡ 0
unfolding times_settled is_settled
is_settled-times j [] h = refl
is_settled-times j (x ∷ rest) h = ground (arith, is_settled-times j rest)

queued-insert :
    (j : ℕ) (k : Job) (ks : List Job)
    → queued j (insert_job k ks) ≡ (if k.id == j then 1 else 0) + queued j ks
unfolding queued insert_job
queued-insert j k [] = refl
queued-insert j k (x ∷ ks) = ground (arith, queued-insert j k ks)

pub queued-sort : (j : ℕ) (ks : List Job) → queued j (sort_jobs ks) ≡ queued j ks
unfolding queued sort_jobs
queued-sort j [] = refl
queued-sort j (k ∷ ks) = ground (arith, queued-insert j k (sort_jobs ks), queued-sort j ks)

pub queued-append :
    (j : ℕ) (ks : List Job) (k : Job)
    → queued j (ks ++ k ∷ []) ≡ queued j ks + (if k.id == j then 1 else 0)
unfolding queued
queued-append j [] k = ground arith
queued-append j (x ∷ ks) k = ground (arith, queued-append j ks k)

pub running-retire : (j w : ℕ) (ss : List Slot) → running j (retire_slot w ss) ≡ running j ss
unfolding running retire_slot
running-retire j w [] = refl
running-retire j w (s ∷ ss) = ground (arith, running-retire j w ss)

pub length-free_slot :
    (j : ℕ) (retire : Bool) (ss : List Slot) → length (free_slot j retire ss) ≡ length ss
unfolding free_slot
length-free_slot j retire [] = refl
length-free_slot j retire (s ∷ ss) = ground (arith, length-free_slot j retire ss)

pub length-assign : (j : ℕ) (ss : List Slot) → length (assign j ss) ≡ length ss
unfolding assign
length-assign j [] = refl
length-assign j (s ∷ ss) = ground (arith, length-assign j ss)

pub length-retire : (w : ℕ) (ss : List Slot) → length (retire_slot w ss) ≡ length ss
unfolding retire_slot
length-retire w [] = refl
length-retire w (s ∷ ss) = ground (arith, length-retire w ss)

pub length-drop : (w : ℕ) (ss : List Slot) → length (drop_retired w ss) ≤ length ss
unfolding drop_retired
length-drop w [] = omega arith
length-drop w (s ∷ ss) = ground (arith, length-drop w ss)

pub length-unqueue : (j : ℕ) (ks : List Job) → length (unqueue j ks) ≤ length ks
unfolding unqueue
length-unqueue j [] = omega arith
length-unqueue j (k ∷ ks) = ground (arith, length-unqueue j ks)

length-insert : (j : Job) (ks : List Job) → length (insert_job j ks) ≡ length ks + 1
unfolding insert_job
length-insert j [] = omega arith
length-insert j (k ∷ ks) = ground (arith, length-insert j ks)

pub length-sort : (ks : List Job) → length (sort_jobs ks) ≡ length ks
unfolding sort_jobs
length-sort [] = refl
length-sort (k ∷ ks) = omega (arith, length-insert k (sort_jobs ks), length-sort ks)

pub settled-times :
    (j : ℕ) (rest : List (ℕ × Outcome)) → is_settled rest j ≡ true → 1 ≤ times_settled j rest
unfolding times_settled is_settled
settled-times j [] h = absurd (ground arith)
settled-times j (x ∷ rest) h = ground (arith, settled-times j rest)
