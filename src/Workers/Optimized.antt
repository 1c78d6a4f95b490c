-- ===== src/Workers/Optimized.antt =====
-- `thread_worker_optimized` and `enqueue` of tp_optimized.c, over the same pool: a worker that finds no
-- connection and the server shut down unlocks the mutex before it returns. What is done under the mutex
-- is one step; the loop that empties the queue takes none, so there `cq_dequeue` is two.
pub mod Progress
mod Tests
use multiplexing_server.Base.{
  ℕ, zero, suc, ◌+◌, ◌≡◌, ◌≤◌, ◌<◌, Bool, true, false, Option, none, some, List, [], ◌∷◌, ◌++◌,
  length,
}
use multiplexing_server.Workers.{
  Worker, starting, looking, waiting, woken, serving, closing, draining, discarding, Unlinks,
  stopped, Acceptor, accepting, accepted, ended, Pool, move, shut_down,
}

-- One step of one thread; at `starting` a worker is at the lock.
pub data StepOptimized : Pool → Pool → Type 0 where
  locks :
      (i : ℕ) (p : Pool)
      → p.workers i ≡ starting
      → p.mutex ≡ none
      → StepOptimized p (move i looking (some i) p.queue p)
  relocks :
      (i : ℕ) (p : Pool)
      → p.workers i ≡ woken
      → p.mutex ≡ none
      → StepOptimized p (move i looking (some i) p.queue p)
  waits :
      (i : ℕ) (p : Pool)
      → p.workers i ≡ looking
      → p.queue ≡ []
      → p.shut ≡ false
      → StepOptimized p (move i waiting none p.queue p)
  -- `if (tp->shut == 1 && clfd == NULL)`
  returns :
      (i : ℕ) (p : Pool)
      → p.workers i ≡ looking
      → p.queue ≡ []
      → p.shut ≡ true
      → StepOptimized p (move i stopped none p.queue p)
  -- `cq_dequeue` and the unlock behind it
  serves :
      (i s : ℕ) (queue : List ℕ) (p : Pool)
      → p.workers i ≡ looking
      → p.queue ≡ s ∷ queue
      → StepOptimized p (move i (serving s) none queue p)
  wakes :
      (i : ℕ) (p : Pool) → p.workers i ≡ waiting → StepOptimized p (move i woken p.mutex p.queue p)
  -- `client_handling_optimized` returns
  finishes :
      (i s : ℕ) (p : Pool)
      → p.workers i ≡ serving s
      → StepOptimized p (move i starting p.mutex p.queue p)
  -- it reads a message of type 8
  is_told :
      (i s : ℕ) (p : Pool)
      → p.workers i ≡ serving s
      → StepOptimized p (move i closing p.mutex p.queue p)
  -- `shut = 1` and the broadcast, between a lock and an unlock
  shuts :
      (i : ℕ) (p : Pool) → p.workers i ≡ closing → p.mutex ≡ none → StepOptimized p (shut_down i p)
  drains :
      (i s : ℕ) (queue : List ℕ) (p : Pool)
      → p.workers i ≡ draining
      → p.queue ≡ s ∷ queue
      → StepOptimized p (move i (discarding s) p.mutex p.queue p)
  discards :
      (i s : ℕ) (queue : List ℕ) (p : Pool)
      → p.workers i ≡ discarding s
      → Unlinks s p.queue queue
      → StepOptimized p (move i draining p.mutex queue p)
  drained :
      (i : ℕ) (p : Pool)
      → p.workers i ≡ draining
      → p.queue ≡ []
      → StepOptimized p (move i starting p.mutex p.queue p)
  accepts :
      (p : Pool)
      → p.main ≡ accepting
      → StepOptimized p (record p { main = accepted p.next; next = p.next + 1 })
  -- `enqueue`, its lock and its unlock included, while the queue has room
  enqueues :
      (s : ℕ) (p : Pool)
      → p.main ≡ accepted s
      → p.mutex ≡ none
      → length p.queue < 1024
      → StepOptimized p (record p { main = accepting; queue = p.queue ++ s ∷ [] })
  -- and when it has none: the connection is closed
  turns_away :
      (s : ℕ) (p : Pool)
      → p.main ≡ accepted s
      → p.mutex ≡ none
      → 1024 ≤ length p.queue
      → StepOptimized p (record p { main = accepting })
  ends : (p : Pool) → p.main ≡ accepting → StepOptimized p (record p { main = ended })

pub data ReachOptimized : Pool → Pool → Type 0 where
  here : (p : Pool) → ReachOptimized p p
  after : (p q r : Pool) → ReachOptimized p q → StepOptimized q r → ReachOptimized p r
