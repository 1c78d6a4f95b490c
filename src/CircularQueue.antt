-- ===== src/CircularQueue.antt =====
-- The circular queue of tp_optimized.c and server_optimized.c. An item is the pointer to a socket
-- descriptor; it is only moved.
pub mod Refine
pub mod Tests
use multiplexing_server.Base.{
  ℕ, ◌+◌, ◌-◌, ◌%◌, Bool, Option, none, some, List, [], ◌∷◌, get_elem?, set, leb, ◌==◌,
  if◌then◌else◌,
}
use multiplexing_server.Fifo.{Op, put, get, Reply, stored, full, item}

abbrev pub queue_size : ℕ
queue_size = 1024

-- `circular_queue`
pub record CircularQueue : Type 0 where
  pub items : List ℕ
  pub head : ℕ
  pub tail : ℕ
  pub count : ℕ

-- `full` stands for the result -1, `stored` for 0.
pub cq_enqueue : CircularQueue → ℕ → Reply × CircularQueue
cq_enqueue q x = if leb queue_size q.count then (full, q) else (
  stored,
  record {
    items = set q.items q.tail x;
    head = q.head;
    tail = (q.tail + 1) % queue_size;
    count = q.count + 1;
  },
)

-- `none` is the null pointer.
pub cq_dequeue : CircularQueue → Option ℕ × CircularQueue
cq_dequeue q = if q.count == 0 then (none, q) else (
  get_elem? q.items q.head,
  record q { head = (q.head + 1) % queue_size; count = q.count - 1 },
)

-- A caller's operations in order, with what each returns.
pub step : CircularQueue → Op → Reply × CircularQueue
step q (put x) = cq_enqueue q x
step q get = let (o, q') = cq_dequeue q in (item o, q')

pub run : CircularQueue → List Op → List Reply
run q [] = []
run q (op ∷ ops) = let (r, q') = step q op in r ∷ run q' ops
