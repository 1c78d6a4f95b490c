-- ===== src/Workers.antt =====
-- The threads: `thread_worker` of tp.c with the accept loop of `main` in server.c, and in the child
-- Optimized `thread_worker_optimized` and `enqueue` of tp_optimized.c. A connection is the number of
-- those accepted before it. A call of `dequeue` is two steps: the read of the first node and the store
-- of what follows it. What `main` does under the mutex is one step. A wait on the condition variable
-- may end at any time. What a connection asks for is open: `client_handling` returns, or is told to
-- shut down.
pub mod Exclusion
pub mod Order
pub mod Jobs
pub mod Stuck
pub mod Optimized
mod Tests
use multiplexing_server.Base.{
  ℕ, zero, suc, ◌+◌, ◌≡◌, Bool, true, false, Option, none, some, List, [], ◌∷◌, ◌++◌, ltb, ◌==◌,
  if◌then◌else◌,
}

-- Where a worker is: at the test of `shut` before the mutex, at the lock, at `dequeue` with the mutex,
-- inside of it with the first node read, behind it with a connection, in the wait for the condition
-- variable, in the wait for the mutex that ends it, in `client_handling`, and there at the shutdown, in
-- the loop that empties the queue or in its call of `dequeue`, which takes no mutex; or it has
-- returned.
pub data Worker : Type 0 where
  starting : Worker
  locking : Worker
  looking : Worker
  taking : ℕ → Worker
  found : ℕ → Worker
  waiting : Worker
  woken : Worker
  serving : ℕ → Worker
  closing : Worker
  draining : Worker
  discarding : ℕ → Worker
  stopped : Worker

-- `main`: in `accept`, with a connection at the lock, or behind the loop.
pub data Acceptor : Type 0 where
  accepting : Acceptor
  accepted : ℕ → Acceptor
  ended : Acceptor

-- `thread_pool` and the threads. `mutex` is the worker that holds it, `next` the number of connections
-- accepted.
pub record Pool : Type 0 where
  pub shut : Bool
  pub mutex : Option ℕ
  pub queue : List ℕ
  pub workers : ℕ → Worker
  pub main : Acceptor
  pub next : ℕ

pub set_worker : (ℕ → Worker) → ℕ → Worker → ℕ → Worker
set_worker workers i w j = if j == i then w else workers j

-- A worker moves on, and leaves the mutex and the queue so.
abbrev pub move : ℕ → Worker → Option ℕ → List ℕ → Pool → Pool
move i w mutex queue p = record p {
  workers = set_worker p.workers i w;
  mutex = mutex;
  queue = queue;
}

-- `pthread_cond_broadcast`
abbrev pub wake : Worker → Worker
wake waiting = woken
wake starting = starting
wake locking = locking
wake looking = looking
wake (taking s) = taking s
wake (found s) = found s
wake woken = woken
wake (serving s) = serving s
wake closing = closing
wake draining = draining
wake (discarding s) = discarding s
wake stopped = stopped

-- `shut = 1` and the broadcast, by a worker that goes on to empty the queue.
pub shut_down : ℕ → Pool → Pool
shut_down i p = record p { shut = true; workers = set_worker (λ j. wake (p.workers j)) i draining }

-- The store of `dequeue`, behind a read that has found `s` first. If `s` is not first any more, another
-- thread has freed its node, and what is stored is open.
abbrev pub Unlinks : ℕ → List ℕ → List ℕ → Type 0
Unlinks s before after = (rest : List ℕ) → before ≡ s ∷ rest → after ≡ rest

-- One step of one thread.
pub data Step : Pool → Pool → Type 0 where
  -- `if (input->shut == 1) return NULL;`, which the test behind `client_handling` comes to as well
  returns_early :
      (i : ℕ) (p : Pool)
      → p.workers i ≡ starting
      → p.shut ≡ true
      → Step p (move i stopped p.mutex p.queue p)
  goes_on :
      (i : ℕ) (p : Pool)
      → p.workers i ≡ starting
      → p.shut ≡ false
      → Step p (move i locking p.mutex p.queue p)
  locks :
      (i : ℕ) (p : Pool)
      → p.workers i ≡ locking
      → p.mutex ≡ none
      → Step p (move i looking (some i) p.queue p)
  waits :
      (i : ℕ) (p : Pool)
      → p.workers i ≡ looking
      → p.queue ≡ []
      → Step p (move i waiting none p.queue p)
  dequeues :
      (i s : ℕ) (queue : List ℕ) (p : Pool)
      → p.workers i ≡ looking
      → p.queue ≡ s ∷ queue
      → Step p (move i (taking s) p.mutex p.queue p)
  takes :
      (i s : ℕ) (queue : List ℕ) (p : Pool)
      → p.workers i ≡ taking s
      → Unlinks s p.queue queue
      → Step p (move i (found s) p.mutex queue p)
  -- `if (input->shut == 1) break;` with a connection: the mutex stays locked
  breaks :
      (i s : ℕ) (p : Pool)
      → p.workers i ≡ found s
      → p.shut ≡ true
      → Step p (move i stopped p.mutex p.queue p)
  serves :
      (i s : ℕ) (p : Pool)
      → p.workers i ≡ found s
      → p.shut ≡ false
      → Step p (move i (serving s) none p.queue p)
  -- by a signal or without one
  wakes : (i : ℕ) (p : Pool) → p.workers i ≡ waiting → Step p (move i woken p.mutex p.queue p)
  relocks :
      (i : ℕ) (p : Pool)
      → p.workers i ≡ woken
      → p.mutex ≡ none
      → p.shut ≡ false
      → Step p (move i looking (some i) p.queue p)
  -- `if (input->shut == 1) break;` behind the wait: the mutex stays locked
  relocks_and_breaks :
      (i : ℕ) (p : Pool)
      → p.workers i ≡ woken
      → p.mutex ≡ none
      → p.shut ≡ true
      → Step p (move i stopped (some i) p.queue p)
  -- `client_handling` returns
  finishes :
      (i s : ℕ) (p : Pool) → p.workers i ≡ serving s → Step p (move i starting p.mutex p.queue p)
  -- `client_handling` reads a message of type 8
  is_told :
      (i s : ℕ) (p : Pool) → p.workers i ≡ serving s → Step p (move i closing p.mutex p.queue p)
  shuts : (i : ℕ) (p : Pool) → p.workers i ≡ closing → Step p (shut_down i p)
  drains :
      (i s : ℕ) (queue : List ℕ) (p : Pool)
      → p.workers i ≡ draining
      → p.queue ≡ s ∷ queue
      → Step p (move i (discarding s) p.mutex p.queue p)
  discards :
      (i s : ℕ) (queue : List ℕ) (p : Pool)
      → p.workers i ≡ discarding s
      → Unlinks s p.queue queue
      → Step p (move i draining p.mutex queue p)
  drained :
      (i : ℕ) (p : Pool)
      → p.workers i ≡ draining
      → p.queue ≡ []
      → Step p (move i starting p.mutex p.queue p)
  accepts :
      (p : Pool)
      → p.main ≡ accepting
      → Step p (record p { main = accepted p.next; next = p.next + 1 })
  -- `enqueue` between the lock and the unlock
  enqueues :
      (s : ℕ) (p : Pool)
      → p.main ≡ accepted s
      → p.mutex ≡ none
      → Step p (record p { main = accepting; queue = p.queue ++ s ∷ [] })
  -- `accept` fails, as it does once the server socket is shut down
  ends : (p : Pool) → p.main ≡ accepting → Step p (record p { main = ended })

pub data Reach : Pool → Pool → Type 0 where
  here : (p : Pool) → Reach p p
  after : (p q r : Pool) → Reach p q → Step q r → Reach p r

-- 20 workers that have just been started.
abbrev pub initial : Pool
initial = record {
  shut = false;
  mutex = none;
  queue = [];
  workers = λ i. if ltb i 20 then starting else stopped;
  main = accepting;
  next = 0;
}
