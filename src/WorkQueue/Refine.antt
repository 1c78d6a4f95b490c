-- ===== src/WorkQueue/Refine.antt =====
-- The linked queue behaves as a queue without a bound.
use multiplexing_server.Base.{
  ℕ, ◌≡◌, refl, sym, ap, ◌∙◌, Option, none, some, List, [], ◌∷◌, ◌++◌, ok,
}
use multiplexing_server.Fifo
use multiplexing_server.Fifo.{Fifo}
use multiplexing_server.Links.{
  Heap, update, update_self, update_ne, NotIn, NotIn-last, Distinct, Distinct-snoc, last, last-snoc,
}
use multiplexing_server.WorkQueue.{Node, WorkQueue, set_next, enqueue, dequeue}

-- From `ptr` on the nodes are at these addresses and carry these items, and the last points to null.
abbrev pub Carries : Heap Node → Option ℕ → List ℕ → Fifo → Type 0
Carries cell ptr [] [] = ptr ≡ none
Carries cell ptr [] (x ∷ xs) = ⊥
Carries cell ptr (p ∷ ps) [] = ⊥
Carries cell ptr (p ∷ ps) (x ∷ xs) =
    (ptr ≡ some p) × (n : Node) × (cell p ≡ some n) × (n.clfd ≡ x) × Carries cell n.next ps xs

pub record Holds (q : WorkQueue) (ps : List ℕ) (xs : Fifo) : Type 0 where
  pub nodes : Carries q.cell q.head ps xs
  pub tail_last : q.tail ≡ last ps
  pub distinct : Distinct ps

Carries-update :
    (cell : Heap Node) (p : ℕ) (r : Option Node) (ptr : Option ℕ) (ps : List ℕ) (xs : Fifo)
    → NotIn p ps
    → Carries cell ptr ps xs
    → Carries (update cell p r) ptr ps xs
Carries-update cell p r ptr [] [] n c = c
Carries-update cell p r ptr [] (x ∷ xs) n c = c
Carries-update cell p r ptr (q ∷ ps) [] n c = c
Carries-update cell p r ptr (q ∷ ps) (x ∷ xs) n c =
    let (e, s, g, v, rest) = c in
    (e, s, update_ne cell p q r n.0 ∙ g, v, Carries-update cell p r s.next ps xs n.1 rest)

-- The last node of a queue that is not empty, and the queue when it is linked on to a new one.
record Linked (cell : Heap Node) (ptr : Option ℕ) (ps : List ℕ) (xs : Fifo) (p x : ℕ) : Type 0 where
  node : ℕ
  held : Node
  is_last : last ps ≡ some node
  at_node : cell node ≡ some held
  nodes :
      Carries
        (update cell node (some (record held { next = some p })))
        ptr
        (ps ++ p ∷ [])
        (xs ++ x ∷ [])

Carries-Linked :
    (cell : Heap Node) (ptr : Option ℕ) (q : ℕ) (ps : List ℕ) (y : ℕ) (xs : Fifo) (p x : ℕ)
    → Carries cell ptr (q ∷ ps) (y ∷ xs)
    → Distinct (q ∷ ps)
    → NotIn p (q ∷ ps)
    → cell p ≡ some (record { clfd = x; next = none })
    → Linked cell ptr (q ∷ ps) (y ∷ xs) p x
Carries-Linked cell ptr q [] y [] p x c d n g =
    let (e, s, h, v, rest) = c in
    record {
      node = q;
      held = s;
      is_last = refl;
      at_node = h;
      nodes = (
        e,
        record s { next = some p },
        update_self cell q (some (record s { next = some p })),
        v,
        (
          refl,
          record { clfd = x; next = none },
          update_ne cell q p (some (record s { next = some p })) (λ i. n.0 (sym i)) ∙ g,
          refl,
          refl,
        ),
      );
    }
Carries-Linked cell ptr q [] y (z ∷ xs) p x c d n g = absurd c.4
Carries-Linked cell ptr q (r ∷ ps) y [] p x c d n g = absurd c.4
Carries-Linked cell ptr q (r ∷ ps) y (z ∷ xs) p x c d n g =
    let (e, s, h, v, rest) = c in
    let w = Carries-Linked cell s.next r ps z xs p x rest d.1 n.1 g in
    record {
      node = w.node;
      held = w.held;
      is_last = w.is_last;
      at_node = w.at_node;
      nodes = (
        e,
        s,
        update_ne cell w.node q (some (record w.held { next = some p }))
              (NotIn-last q w.node (r ∷ ps) d.0 w.is_last)
            ∙ h,
        v,
        w.nodes,
      );
    }

enqueue_behind :
    (q : WorkQueue) (p x t : ℕ) (s : Node)
    → q.tail ≡ some t
    → update q.cell p (some (record { clfd = x; next = none })) t ≡ some s
    → enqueue q p x
      ≡ ok (record {
        cell =
            update
              (update q.cell p (some (record { clfd = x; next = none })))
              t
              (some (record s { next = some p }));
        head = q.head;
        tail = some p;
      })
unfolding enqueue set_next
enqueue_behind q p x t s e g = rw e (rw g refl)

-- `enqueue`, on a queue that holds some items and with a node that `malloc` has just made, at an
-- address that no node of the queue has, appends the item, and does not fault.
pub enqueue_refines :
    (q : WorkQueue) (ps : List ℕ) (xs : Fifo) (p x : ℕ)
    → Holds q ps xs
    → NotIn p ps
    → (q' : WorkQueue) × (enqueue q p x ≡ ok q') × Holds q' (ps ++ p ∷ []) (xs ++ x ∷ [])
unfolding enqueue set_next
enqueue_refines q [] [] p x v n =
    let fresh : Node = record { clfd = x; next = none } in
    (
      record { cell = update q.cell p (some fresh); head = some p; tail = some p },
      rw v.tail_last refl,
      record {
        nodes = (refl, fresh, update_self q.cell p (some fresh), refl, refl);
        tail_last = refl;
        distinct = (tt, tt);
      },
    )
enqueue_refines q [] (y ∷ xs) p x v n = absurd v.nodes
enqueue_refines q (r ∷ ps) [] p x v n = absurd v.nodes
enqueue_refines q (r ∷ ps) (y ∷ xs) p x v n =
    let fresh : Node = record { clfd = x; next = none } in
    let cell = update q.cell p (some fresh) in
    let w =
      Carries-Linked cell q.head r ps y xs p x
        (Carries-update q.cell p (some fresh) q.head (r ∷ ps) (y ∷ xs) n v.nodes) v.distinct n
        (update_self q.cell p (some fresh)) in
    (
      record {
        cell = update cell w.node (some (record w.held { next = some p }));
        head = q.head;
        tail = some p;
      },
      enqueue_behind q p x w.node w.held (v.tail_last ∙ w.is_last) w.at_node,
      record {
        nodes = w.nodes;
        tail_last = sym (last-snoc (r ∷ ps) p);
        distinct = Distinct-snoc p (r ∷ ps) n v.distinct;
      },
    )

-- The tail when the first node is gone: null if that was the only one.
tail_after :
    (cell : Heap Node) (ptr : Option ℕ) (r : ℕ) (ps : List ℕ) (xs : Fifo)
    → Carries cell ptr ps xs
    → (elim ptr [ none ↦ none | some _ ↦ last (r ∷ ps) ]) ≡ last ps
tail_after cell ptr r [] [] c = rw c refl
tail_after cell ptr r [] (x ∷ xs) c = absurd c
tail_after cell ptr r (p ∷ ps) [] c = absurd c
tail_after cell ptr r (p ∷ ps) (x ∷ xs) c = rw c.0 refl

-- On a queue that holds some items `dequeue` returns the oldest, and the queue holds the rest; on
-- an empty queue it returns null. It does not fault.
pub dequeue_refines :
    (q : WorkQueue) (ps : List ℕ) (xs : Fifo)
    → Holds q ps xs
    → let (o, ys) = Fifo.pop xs in
      (q' : WorkQueue) × (qs : List ℕ) × (dequeue q ≡ ok (o, q')) × Holds q' qs ys
unfolding dequeue Fifo.pop
dequeue_refines q [] [] v = (q, [], rw v.nodes refl, v)
dequeue_refines q [] (y ∷ xs) v = absurd v.nodes
dequeue_refines q (r ∷ ps) [] v = absurd v.nodes
dequeue_refines q (r ∷ ps) (y ∷ xs) v =
    let (e, s, h, item, rest) = v.nodes in
    (
      record {
        cell = update q.cell r none;
        head = s.next;
        tail = elim s.next [ none ↦ none | some _ ↦ q.tail ];
      },
      ps,
      rw e (rw h (rw item refl)),
      record {
        nodes = Carries-update q.cell r none s.next ps xs v.distinct.0 rest;
        tail_last =
            ap (λ t. elim s.next [ none ↦ none | some _ ↦ t ]) v.tail_last
            ∙ tail_after q.cell s.next r ps xs rest;
        distinct = v.distinct.1;
      },
    )
