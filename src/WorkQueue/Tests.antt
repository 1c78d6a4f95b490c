-- ===== src/WorkQueue/Tests.antt =====
-- A queue of two sockets, and the theorems at it.
use multiplexing_server.Base.{
  ℕ, ◌≡◌, refl, none, some, List, [], ◌∷◌, ok, ◌==◌, if◌then◌else◌, arith,
}
use multiplexing_server.Links.{Heap}
use multiplexing_server.Fifo
use multiplexing_server.WorkQueue.{Node, WorkQueue, enqueue, dequeue}
use multiplexing_server.WorkQueue.Refine.{Holds, enqueue_refines, dequeue_refines}

abbrev nodes : Heap Node
nodes p =
    if p == 1
    then some (record { clfd = 7; next = some 2 })
    else if p == 2
    then some (record { clfd = 8; next = none })
    else none

abbrev pub two : WorkQueue
two = record { cell = nodes; head = some 1; tail = some 2 }

pub two-Holds : Holds two (1 ∷ 2 ∷ []) (7 ∷ 8 ∷ [])
two-Holds = record {
  nodes = (
    refl,
    record { clfd = 7; next = some 2 },
    refl,
    refl,
    (refl, record { clfd = 8; next = none }, refl, refl, refl),
  );
  tail_last = refl;
  distinct = ((omega arith, tt), (tt, tt));
}

enqueue_refines_example :
    (q : WorkQueue) × (enqueue two 3 9 ≡ ok q) × Holds q (1 ∷ 2 ∷ 3 ∷ []) (7 ∷ 8 ∷ 9 ∷ [])
enqueue_refines_example =
    enqueue_refines two (1 ∷ 2 ∷ []) (7 ∷ 8 ∷ []) 3 9 two-Holds (omega arith, (omega arith, tt))

dequeue_refines_example :
    let (o, ys) = Fifo.pop (7 ∷ 8 ∷ []) in
    (q : WorkQueue) × (ps : List ℕ) × (dequeue two ≡ ok (o, q)) × Holds q ps ys
dequeue_refines_example = dequeue_refines two (1 ∷ 2 ∷ []) (7 ∷ 8 ∷ []) two-Holds
