-- ===== src/CircularQueue/Refine.antt =====
-- The circular queue keeps its indices in range and behaves as a queue of at most 1024 items.
use multiplexing_server.Base.{
  ℕ, suc, ◌+◌, ◌%◌, ◌≤◌, ◌<◌, ◌≡◌, refl, ap, ap₂, ◌∙◌, inl, inr, true, false, Bool-cases, some,
  List, [], ◌∷◌, get_elem?, get_elem?-set_self, get_elem?-set_ne, get_elem?-lt, get_elem?-snoc, set,
  length, length-set, length-append, leb, ltb, ◌==◌, arith,
}
use multiplexing_server.Fifo
use multiplexing_server.Fifo.{Fifo, Op, put, get, Reply, stored, full, item}
use multiplexing_server.CircularQueue.{CircularQueue, queue_size, cq_enqueue, cq_dequeue, step, run}

-- The queue holds these items: the one at place `i` stands `i` slots on from the head, going round.
pub record Holds (q : CircularQueue) (xs : Fifo) : Type 0 where
  pub room : length q.items ≡ queue_size
  pub head_in : q.head < queue_size
  pub tail_at : q.tail ≡ (q.head + q.count) % queue_size
  pub counted : q.count ≡ length xs
  pub fits : q.count ≤ queue_size
  pub slots :
      (i x : ℕ) → get_elem? xs i ≡ some x → get_elem? q.items ((q.head + i) % queue_size) ≡ some x

-- `cq_enqueue` refuses an item exactly when 1024 are held, and then changes nothing; otherwise it
-- appends the item to those held. The indices stay in range.
pub cq_enqueue_refines :
    (q : CircularQueue) (xs : Fifo) (x : ℕ)
    → Holds q xs
    → let (r, q') = cq_enqueue q x in
      let (s, ys) = Fifo.push queue_size xs x in (r ≡ s) × Holds q' ys
unfolding cq_enqueue Fifo.push
cq_enqueue_refines q xs x v = elim (Bool-cases (leb queue_size q.count)) [
  | inl is_full ↦
      let e : ltb (length xs) queue_size ≡ false = ground (arith, v.counted) in
      rw (is_full, e) (refl, v)
  | inr not_full ↦
      let e : ltb (length xs) queue_size ≡ true = ground (arith, v.counted) in
      let below : q.count < queue_size = ground arith in
      rw (not_full, e)
        (
          refl,
          record {
            room = length-set q.items q.tail x ∙ v.room;
            head_in = v.head_in;
            tail_at = omega (arith, v.tail_at, v.head_in);
            counted = omega (arith, v.counted, length-append xs (x ∷ []));
            fits = ground arith;
            slots = λ i y h. elim (get_elem?-snoc xs x i h) [
              | inl g ↦
                  get_elem?-set_ne q.items q.tail ((q.head + i) % queue_size) x
                    (omega (arith, below, v.tail_at, v.counted, v.head_in, get_elem?-lt xs i g))
                  ∙ v.slots i y g
              | inr (last, same) ↦
                  let here : (q.head + i) % queue_size ≡ q.tail =
                    omega (arith, v.tail_at, v.counted) in
                  ap (get_elem? (set q.items q.tail x)) here
                  ∙ get_elem?-set_self q.items q.tail x (omega (arith, v.room, v.tail_at))
                  ∙ ap some same
            ];
          },
        )
]

-- `cq_dequeue` returns the oldest item and leaves the rest, or null when none is held.
pub cq_dequeue_refines :
    (q : CircularQueue) (xs : Fifo)
    → Holds q xs
    → let (o, q') = cq_dequeue q in let (p, ys) = Fifo.pop xs in (o ≡ p) × Holds q' ys
unfolding cq_dequeue Fifo.pop
cq_dequeue_refines q [] v =
    let e : (q.count == 0) ≡ true = ground (arith, v.counted) in rw e (refl, v)
cq_dequeue_refines q (x ∷ xs) v =
    let e : (q.count == 0) ≡ false = ground (arith, v.counted) in
    let at_head : q.head % queue_size ≡ q.head = omega (arith, v.head_in) in
    rw e (
      ap (get_elem? q.items) (omega (arith, v.head_in)) ∙ v.slots 0 x refl,
      record {
        room = v.room;
        head_in = omega arith;
        tail_at = omega (arith, v.tail_at, v.counted);
        counted = omega (arith, v.counted);
        fits = omega (arith, v.fits);
        slots = λ i y h. ap (get_elem? q.items) (omega arith) ∙ v.slots (suc i) y h;
      },
    )

step_refines :
    (q : CircularQueue) (xs : Fifo) (op : Op)
    → Holds q xs
    → let (r, q') = step q op in let (s, ys) = Fifo.step queue_size xs op in (r ≡ s) × Holds q' ys
unfolding step Fifo.step
step_refines q xs (put x) v = cq_enqueue_refines q xs x v
step_refines q xs get v = let (e, w) = cq_dequeue_refines q xs v in (ap item e, w)

-- A circular queue that holds some items gives the same answers to every sequence of operations as
-- a first-in first-out queue of at most 1024 items that starts with those.
pub run_refines :
    (ops : List Op) (q : CircularQueue) (xs : Fifo)
    → Holds q xs
    → run q ops ≡ Fifo.run queue_size xs ops
unfolding run Fifo.run
run_refines [] q xs v = refl
run_refines (op ∷ ops) q xs v =
    let (e, w) = step_refines q xs op v in ap₂ ◌∷◌ e (run_refines ops _ _ w)
