-- ===== src/Workers/Optimized/Tests.antt =====
-- A worker that has locked the mutex.
use multiplexing_server.Base.{ℕ, ◌≡◌, ◌⊎◌, refl, none, some}
use multiplexing_server.Workers.{Pool, set_worker, initial}
use multiplexing_server.Workers.Optimized.{StepOptimized, locks, ReachOptimized, here, after}
use multiplexing_server.Workers.Optimized.Progress.{thread_worker_optimized-leaves_mutex}

record Locked : Type 0 where
  pool : Pool
  reached : ReachOptimized initial pool
  mutex : pool.mutex ≡ some 3

locked : Locked
unfolding set_worker
locked = record {
  pool = _;
  reached = after _ _ _ (here initial) (locks 3 initial refl refl);
  mutex = refl;
}

thread_worker_optimized-leaves_mutex_example :
    (locked.pool.mutex ≡ none)
    ⊎ ((i : ℕ) × (locked.pool.mutex ≡ some i)
        × (q : Pool) × StepOptimized locked.pool q
        × (q.mutex ≡ none))
thread_worker_optimized-leaves_mutex_example =
    thread_worker_optimized-leaves_mutex locked.pool locked.reached
