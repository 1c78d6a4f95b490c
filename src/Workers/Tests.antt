-- ===== src/Workers/Tests.antt =====
-- Two connections that are accepted, and a worker that takes the first of them.
use multiplexing_server.Base.{arith, zero, ◌<◌, ◌≡◌, refl, false, [], ◌∷◌, All}
use multiplexing_server.Workers.{
  found, Pool, set_worker, initial, goes_on, locks, dequeues, takes, serves, is_told, shuts,
  shut_down, drains, taking, discarding, accepts, enqueues, Reach, here, after,
}
use multiplexing_server.Workers.Exclusion.{thread_worker-Excludes}
use multiplexing_server.Workers.Order.{Job}
use multiplexing_server.Workers.Jobs.{thread_worker-InOrder}

record Taken : Type 0 where
  pool : Pool
  reached : Reach initial pool
  first : pool.workers 0 ≡ found 0
  second : pool.queue ≡ 1 ∷ []
  running : pool.shut ≡ false

taken : Taken
unfolding set_worker
taken =
    let a1 = after _ _ _ (here initial) (accepts initial refl) in
    let a2 = after _ _ _ a1 (enqueues 0 _ refl refl) in
    let a3 = after _ _ _ a2 (accepts _ refl) in
    let a4 = after _ _ _ a3 (enqueues 1 _ refl refl) in
    let a5 = after _ _ _ a4 (goes_on 0 _ refl refl) in
    let a6 = after _ _ _ a5 (locks 0 _ refl refl) in
    let a7 = after _ _ _ a6 (dequeues 0 0 (1 ∷ []) _ refl refl) in
    let a8 = after _ _ _ a7 (takes 0 0 (1 ∷ []) _ refl (λ rest e. ground arith)) in
    record { pool = _; reached = a8; first = refl; second = refl; running = refl }

thread_worker-Excludes_run : zero ≡ zero
thread_worker-Excludes_run =
    thread_worker-Excludes taken.pool 0 0 taken.reached (rw taken.first tt) (rw taken.first tt)

thread_worker-InOrder_example :
    (Job (taken.pool.workers 1) 0 → zero ≡ 1) × All (λ t. 0 < t) taken.pool.queue
thread_worker-InOrder_example =
    thread_worker-InOrder taken.pool 0 1 0 taken.reached taken.running (rw taken.first refl)

-- Behind the shutdown, the loop that empties the queue and a worker with the mutex are both inside of
-- `dequeue`, each with the same node read, which both will free.
drain_race : (p : Pool) × Reach initial p × (p.workers 0 ≡ discarding 1) × (p.workers 1 ≡ taking 1)
unfolding set_worker shut_down
drain_race =
    let a1 = after _ _ _ (here initial) (accepts initial refl) in
    let a2 = after _ _ _ a1 (enqueues 0 _ refl refl) in
    let a3 = after _ _ _ a2 (goes_on 0 _ refl refl) in
    let a4 = after _ _ _ a3 (locks 0 _ refl refl) in
    let a5 = after _ _ _ a4 (dequeues 0 0 [] _ refl refl) in
    let a6 = after _ _ _ a5 (takes 0 0 [] _ refl (λ rest e. ground arith)) in
    let a7 = after _ _ _ a6 (serves 0 0 _ refl refl) in
    let b1 = after _ _ _ a7 (accepts _ refl) in
    let b2 = after _ _ _ b1 (enqueues 1 _ refl refl) in
    let b3 = after _ _ _ b2 (goes_on 1 _ refl refl) in
    let b4 = after _ _ _ b3 (locks 1 _ refl refl) in
    let c1 = after _ _ _ b4 (is_told 0 0 _ refl) in
    let c2 = after _ _ _ c1 (shuts 0 _ refl) in
    let c3 = after _ _ _ c2 (drains 0 1 [] _ refl refl) in
    let c4 = after _ _ _ c3 (dequeues 1 1 [] _ refl refl) in (_, c4, refl, refl)
