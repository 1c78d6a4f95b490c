-- ===== src/WorkQueue.antt =====
-- The queue of waiting sockets of tp.c, as pointers on a heap. Its callers hold the pool's mutex, but
-- for the loop of `client_handling` that empties the queue at a shutdown; what that leads to is left to
-- Workers.
pub mod Refine
pub mod Tests
use multiplexing_server.Base.{ℕ, Option, none, some, Outcome, ok, fault, ◌>>=◌, or_fault}
use multiplexing_server.Links.{Heap, update}

-- `struct Node`
pub record Node : Type 0 where
  pub clfd : ℕ
  pub next : Option ℕ

-- The fields `head` and `tail` of the thread pool, and the heap that they point to.
pub record WorkQueue : Type 0 where
  pub cell : Heap Node
  pub head : Option ℕ
  pub tail : Option ℕ

-- `p->next = q`
pub set_next : Heap Node → ℕ → Option ℕ → Outcome (Heap Node)
set_next cell p q = do n ← or_fault (cell p); ok (update cell p (some (record n { next = q })))

-- `toadd` is the address that `malloc` returns.
pub enqueue : WorkQueue → ℕ → ℕ → Outcome WorkQueue
enqueue q toadd clfd =
    let cell = update q.cell toadd (some (record { clfd = clfd; next = none })) in
    elim q.tail [
      | none ↦ ok (record { cell = cell; head = some toadd; tail = some toadd })
      | some t ↦ do
        cell' ← set_next cell t (some toadd)
        ok (record { cell = cell'; head = q.head; tail = some toadd })
    ]

-- The node at the head is freed. The result is the item, `none` for the null pointer.
pub dequeue : WorkQueue → Outcome (Option ℕ × WorkQueue)
dequeue q = elim q.head [
  | none ↦ ok (none, q)
  | some p ↦ do
    n ← or_fault (q.cell p)
    ok (
      some n.clfd,
      record {
        cell = update q.cell p none;
        head = n.next;
        tail = elim n.next [ none ↦ none | some _ ↦ q.tail ];
      },
    )
]
