-- ===== src/Workers/Order.antt =====
-- The order in which the workers of tp.c take connections out of the queue.
use multiplexing_server.Base.{
  ℕ, zero, suc, ◌+◌, ◌<◌, ◌≡◌, ◌≢◌, refl, ap, sym, ◌∙◌, Option, List, [], ◌∷◌, ◌++◌, arith,
}
use multiplexing_server.Workers.{
  Worker, starting, locking, looking, taking, found, waiting, woken, serving, closing, draining,
  discarding, stopped, Acceptor, accepting, accepted, ended, Pool, set_worker, move,
}
use multiplexing_server.Workers.Exclusion.{Inside, set_worker-all}

-- The worker has this connection.
abbrev pub Job : Worker → ℕ → Type 0
Job (found t) s = t ≡ s
Job (serving t) s = t ≡ s
Job _ s = ⊥

-- The connections from `lo` on.
abbrev pub upto : ℕ → ℕ → List ℕ
upto lo zero = []
upto lo (suc n) = lo ∷ upto (lo + 1) n

-- The connections up to `top` have been put into the queue.
abbrev pub Queued : Acceptor → ℕ → ℕ → Type 0
Queued accepting top next = top ≡ next
Queued (accepted s) top next = (s ≡ top) × (next ≡ top + 1)
Queued ended top next = top ≡ next

-- What a worker has read of this queue.
abbrev pub Reads : Worker → List ℕ → Type 0
Reads (taking s) queue = (rest : List ℕ) × (queue ≡ s ∷ rest)
Reads draining queue = ⊥
Reads (discarding s) queue = ⊥
Reads _ queue = Unit

-- Nothing, if it is outside.
pub Reads-outside :
    (w : Worker) (queue queue' : List ℕ) → (Inside w → ⊥) → Reads w queue → Reads w queue'
Reads-outside looking queue queue' h r = tt
Reads-outside (taking s) queue queue' h r = absurd (h tt)
Reads-outside (found s) queue queue' h r = tt
Reads-outside starting queue queue' h r = tt
Reads-outside locking queue queue' h r = tt
Reads-outside waiting queue queue' h r = tt
Reads-outside woken queue queue' h r = tt
Reads-outside (serving s) queue queue' h r = tt
Reads-outside closing queue queue' h r = tt
Reads-outside draining queue queue' h r = absurd r
Reads-outside (discarding s) queue queue' h r = absurd r
Reads-outside stopped queue queue' h r = tt

-- The connections below `lo` have left the queue, those from `lo` on wait in it in their order, and no
-- two workers have the same one. A worker inside of `dequeue` has read the first of the queue, and none
-- empties it.
pub record InOrder (p : Pool) : Type 0 where
  pub lo : ℕ
  pub size : ℕ
  pub waits_for : p.queue ≡ upto lo size
  pub queued : Queued p.main (lo + size) p.next
  pub below : (i s : ℕ) → Job (p.workers i) s → s < lo
  pub apart : (i j s : ℕ) → i ≢ j → Job (p.workers i) s → Job (p.workers j) s → ⊥
  pub reads : (i : ℕ) → Reads (p.workers i) p.queue

pub upto-snoc : (lo n : ℕ) → upto lo n ++ (lo + n) ∷ [] ≡ upto lo (n + 1)
upto-snoc lo zero = ap (λ k. k ∷ []) (omega arith)
upto-snoc lo (suc n) =
    let e : lo + suc n ≡ (lo + 1) + n = omega arith in
    let f : suc n + 1 ≡ suc (n + 1) = omega arith in rw (e, f) (ap (◌∷◌ lo) (upto-snoc (lo + 1) n))

-- What the worker at this place has read.
pub seen_by : (i : ℕ) {w : Worker} (p : Pool) → InOrder p → p.workers i ≡ w → Reads w p.queue
seen_by i p h e = rw (← e) (h.reads i)

-- A step that gives no worker a connection, and leaves the queue and the acceptor.
pub fewer_jobs :
    (p q : Pool)
    → InOrder p
    → q.queue ≡ p.queue
    → q.main ≡ p.main
    → q.next ≡ p.next
    → ((j s : ℕ) → Job (q.workers j) s → Job (p.workers j) s)
    → ((j : ℕ) → Reads (q.workers j) q.queue)
    → InOrder q
fewer_jobs p q h eq em en k r = record {
  lo = h.lo;
  size = h.size;
  waits_for = eq ∙ h.waits_for;
  queued = rw (em, en) h.queued;
  below = λ i s g. h.below i s (k i s g);
  apart = λ i j s ne g g'. h.apart i j s ne (k i s g) (k j s g');
  reads = r;
}

-- The same for one worker that moves.
pub moves_on :
    (i : ℕ) (w : Worker) (mutex : Option ℕ) (p : Pool)
    → InOrder p
    → ((s : ℕ) → Job w s → Job (p.workers i) s)
    → Reads w p.queue
    → InOrder (move i w mutex p.queue p)
moves_on i w mutex p h k r =
    fewer_jobs p (move i w mutex p.queue p) h refl refl refl
      (set_worker-all (λ j v. (s : ℕ) → Job v s → Job (p.workers j) s) p.workers i w k
        (λ j ne s g. g))
      (set_worker-all (λ j v. Reads v p.queue) p.workers i w r (λ j ne. h.reads j))

-- The head of the queue goes to a worker, with all others outside.
pub takes_head :
    (i s : ℕ) (w : Worker) (queue : List ℕ) (p : Pool)
    → InOrder p
    → p.queue ≡ s ∷ queue
    → ((t : ℕ) → Job w t → s ≡ t)
    → Reads w queue
    → ((j : ℕ) → j ≢ i → Inside (p.workers j) → ⊥)
    → InOrder (move i w p.mutex queue p)
takes_head i s w queue p h e k r out = leaves h.size h.waits_for h.queued
  where
    leaves :
        (size : ℕ)
        → p.queue ≡ upto h.lo size
        → Queued p.main (h.lo + size) p.next
        → InOrder (move i w p.mutex queue p)
    leaves zero g d = absurd (cc)
    leaves (suc n) g d =
        let both : s ∷ queue ≡ h.lo ∷ upto (h.lo + 1) n = sym e ∙ g in
        let head : s ≡ h.lo = ground arith in
        let tail : queue ≡ upto (h.lo + 1) n = ground arith in
        let top : h.lo + suc n ≡ (h.lo + 1) + n = omega arith in
        let others : (j : ℕ) → j ≢ i → (t : ℕ) → Job (p.workers j) t → t < h.lo =
          λ j ne t g. h.below j t g in
        record {
          lo = h.lo + 1;
          size = n;
          waits_for = tail;
          queued = rw top at d;
          below =
              set_worker-all (λ j v. (t : ℕ) → Job v t → t < h.lo + 1) p.workers i w
                (λ t g. omega (arith, k t g, head)) (λ j ne t g. omega (arith, h.below j t g));
          apart = λ a b t ne.
              set_worker-all (λ a v. a ≢ b → Job v t → Job (set_worker p.workers i w b) t → ⊥)
                p.workers i w
                (λ ne' g.
                  set_worker-all (λ b v. i ≢ b → Job v t → ⊥) p.workers i w (λ z g'. z refl)
                    (λ c nc z g'. omega (arith, k t g, head, h.below c t g')) b ne')
                (λ c nc ne' g.
                  set_worker-all (λ b v. c ≢ b → Job v t → ⊥) p.workers i w
                    (λ z g'. omega (arith, k t g', head, h.below c t g))
                    (λ d nd z g'. h.apart c d t z g g') b ne')
                a ne;
          reads =
              set_worker-all (λ j v. Reads v queue) p.workers i w r
                (λ j ne. Reads-outside (p.workers j) p.queue queue (out j ne) (h.reads j));
        }
