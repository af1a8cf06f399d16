-- ===== src/Tests/Queues.antt =====
-- The theorems on the pool for quick play and on the pool of workers at small states.
use purecheckers.Base.{
  ℕ, ◌+◌, ◌≡◌, refl, inl, Bool, true, false, ◌&&◌, ltb, leb, if◌then◌else◌, some, [], ◌∈◌,
}
use purecheckers.QuickPlay
use purecheckers.QuickPlay.{
  Entry, Pair, friendly, add, set_claim, has, try_match, restore_claim, empty_pool,
}
use purecheckers.QuickPlay.Passes.{IsMatch}
use purecheckers.QuickPlay.Total.{total, pairs_total, total-try_match}
use purecheckers.QuickPlay.Claims.{try_match-IsMatch}
use purecheckers.QuickPlay.Reach.{Reached, opens, adds, IsSound, Reached-IsSound}
use purecheckers.WorkerPool
use purecheckers.WorkerPool.{run, new_pool, fresh_pool, close}
use purecheckers.WorkerPool.Counts.{times_settled}
use purecheckers.WorkerPool.Ready.{IsReady}
use purecheckers.WorkerPool.Close.{close-settles}
use purecheckers.WorkerPool.Reach.{creates, runs, Reached-IsReady}

abbrev searchers : QuickPlay.Pool
searchers = add (add empty_pool 1 1000 true 0) 2 1100 true 500

searchers-Reached : Reached searchers
searchers-Reached = adds 2 1100 true 500 (adds 1 1000 true 0 opens)

abbrev first_guest : Entry
first_guest = record { user_id = 1; elo = 1000; is_guest = true; joined_at = 0; order = 1 }

abbrev second_guest : Entry
second_guest = record { user_id = 2; elo = 1100; is_guest = true; joined_at = 500; order = 2 }

abbrev guests : Pair
guests = record { a = first_guest; b = second_guest; mode = friendly }

guests_paired : guests ∈ (try_match searchers 2000).1
unfolding add has try_match QuickPlay.indexed QuickPlay.matching QuickPlay.group
    QuickPlay.match_within_group QuickPlay.match_mixed QuickPlay.match_one QuickPlay.partner
    QuickPlay.is_matched QuickPlay.is_within QuickPlay.elo_window QuickPlay.unmatched
guests_paired = inl refl

total-try_match_example :
    total (λ e. e.elo) searchers.players
    ≡ total (λ e. e.elo) (try_match searchers 2000).0.players
      + pairs_total (λ e. e.elo) (try_match searchers 2000).1
total-try_match_example = total-try_match (λ e. e.elo) searchers 2000

try_match-IsMatch_example :
    IsMatch 2000 guests × (first_guest ∈ searchers.players) × (second_guest ∈ searchers.players)
try_match-IsMatch_example = try_match-IsMatch searchers 2000 guests guests_paired

Reached-IsSound_example : IsSound searchers
Reached-IsSound_example = Reached-IsSound searchers-Reached

works : ℕ → Bool
works n = true

breaks : ℕ → Bool
breaks n = false

abbrev busy_pool : WorkerPool.Pool
busy_pool = (run works works 5 false 100 (fresh_pool 1 4)).0

pool_made : new_pool 1 4 ≡ some (fresh_pool 1 4)
unfolding new_pool
pool_made = refl

Reached-IsReady_example : IsReady busy_pool
Reached-IsReady_example = Reached-IsReady works works (runs 5 false 100 (creates 1 4 pool_made))

busy_pool-IsReady : IsReady busy_pool
busy_pool-IsReady = Reached-IsReady works works (runs 5 false 100 (creates 1 4 pool_made))

close-settles_example :
    ((close works breaks busy_pool).queue ≡ [])
    × ((close works breaks busy_pool).slots ≡ [])
    × ((close works breaks busy_pool).stopped ≡ true)
    × ((j : ℕ)
        → times_settled j (close works breaks busy_pool).settled
          ≡ (if leb 1 j && ltb j (close works breaks busy_pool).next_id then 1 else 0))
close-settles_example = close-settles works breaks busy_pool busy_pool-IsReady
