-- ===== src/Workers/Jobs.antt =====
-- Which worker of tp.c serves which connection until the shutdown.
use multiplexing_server.Base.{
  ℕ, zero, suc, ◌+◌, ◌<◌, ◌≡◌, refl, ap, sym, ◌∙◌, inl, inr, false, Bool-cases, none, some, [], ◌∷◌,
  ◌++◌, ltb, ◌==◌, ==_iff, All, arith,
}
use multiplexing_server.Workers.{
  starting, locking, looking, taking, found, waiting, woken, serving, closing, stopped, Pool,
  shut_down, Step, returns_early, goes_on, locks, waits, dequeues, takes, breaks, serves, wakes,
  relocks, relocks_and_breaks, finishes, is_told, shuts, drains, discards, drained, accepts,
  enqueues, ends, Reach, here, after, initial,
}
use multiplexing_server.Workers.Order.{
  Job, upto, Reads, InOrder, Reads-outside, upto-snoc, seen_by, moves_on, takes_head,
}
use multiplexing_server.Workers.Exclusion.{
  Excludes, others_outside, initial-Excludes, Reach-Excludes,
}

-- A server that is not shut down was not before.
Step-running : (p q : Pool) → Step p q → q.shut ≡ false → p.shut ≡ false
Step-running _ _ (returns_early i p e s) h = h
Step-running _ _ (goes_on i p e s) h = h
Step-running _ _ (locks i p e m) h = h
Step-running _ _ (waits i p e m) h = h
Step-running _ _ (dequeues i s queue p e m) h = h
Step-running _ _ (takes i s queue p e m) h = h
Step-running _ _ (breaks i s p e m) h = h
Step-running _ _ (serves i s p e m) h = h
Step-running _ _ (wakes i p e) h = h
Step-running _ _ (relocks i p e m s) h = h
Step-running _ _ (relocks_and_breaks i p e m s) h = h
Step-running _ _ (finishes i s p e) h = h
Step-running _ _ (is_told i s p e) h = h
Step-running _ _ (shuts i p e) h = unfold shut_down in absurd (cc)
Step-running _ _ (drains i s queue p e m) h = h
Step-running _ _ (discards i s queue p e m) h = h
Step-running _ _ (drained i p e m) h = h
Step-running _ _ (accepts p e) h = h
Step-running _ _ (enqueues s p e m) h = h
Step-running _ _ (ends p e) h = h

Step-InOrder : (p q : Pool) → Step p q → Excludes p → q.shut ≡ false → InOrder p → InOrder q
Step-InOrder _ _ (returns_early i p e s) x q h = moves_on i stopped p.mutex p h (λ s k. absurd k) tt
Step-InOrder _ _ (goes_on i p e s) x q h = moves_on i locking p.mutex p h (λ s k. absurd k) tt
Step-InOrder _ _ (locks i p e m) x q h = moves_on i looking (some i) p h (λ s k. absurd k) tt
Step-InOrder _ _ (waits i p e m) x q h = moves_on i waiting none p h (λ s k. absurd k) tt
Step-InOrder _ _ (dequeues i s queue p e m) x q h =
    moves_on i (taking s) p.mutex p h (λ t k. absurd k) (queue, m)
Step-InOrder _ _ (takes i s queue p e u) x q h =
    let (rest, g) : Reads (taking s) p.queue = seen_by i p h e in
    let first : p.queue ≡ s ∷ queue = g ∙ ap (◌∷◌ s) (sym (u rest g)) in
    takes_head i s (found s) queue p h first (λ t k. k) tt (others_outside i p x (x i (rw e tt)))
Step-InOrder _ _ (breaks i s p e m) x q h = moves_on i stopped p.mutex p h (λ s k. absurd k) tt
Step-InOrder _ _ (serves i s p e m) x q h = moves_on i (serving s) none p h (λ t k. rw e k) tt
Step-InOrder _ _ (wakes i p e) x q h = moves_on i woken p.mutex p h (λ s k. absurd k) tt
Step-InOrder _ _ (relocks i p e m s) x q h = moves_on i looking (some i) p h (λ s k. absurd k) tt
Step-InOrder _ _ (relocks_and_breaks i p e m s) x q h =
    moves_on i stopped (some i) p h (λ s k. absurd k) tt
Step-InOrder _ _ (finishes i s p e) x q h = moves_on i starting p.mutex p h (λ s k. absurd k) tt
Step-InOrder _ _ (is_told i s p e) x q h = moves_on i closing p.mutex p h (λ s k. absurd k) tt
Step-InOrder _ _ (shuts i p e) x q h = unfold shut_down in absurd (cc)
Step-InOrder _ _ (drains i s queue p e m) x q h = absurd (seen_by i p h e)
Step-InOrder _ _ (discards i s queue p e m) x q h = absurd (seen_by i p h e)
Step-InOrder _ _ (drained i p e m) x q h = absurd (seen_by i p h e)
Step-InOrder _ _ (accepts p e) x q h =
    let top : h.lo + h.size ≡ p.next = rw e at h.queued in
    record {
      lo = h.lo;
      size = h.size;
      waits_for = h.waits_for;
      queued = (sym top, ap (λ k. k + 1) (sym top));
      below = h.below;
      apart = h.apart;
      reads = h.reads;
    }
Step-InOrder _ _ (enqueues s p e m) x q h =
    let top : (s ≡ h.lo + h.size) × (p.next ≡ h.lo + h.size + 1) = rw e at h.queued in
    record {
      lo = h.lo;
      size = h.size + 1;
      waits_for = rw (h.waits_for, top.0) (upto-snoc h.lo h.size);
      queued = omega (arith, top.1);
      below = h.below;
      apart = h.apart;
      reads = λ j.
          Reads-outside (p.workers j) p.queue (p.queue ++ s ∷ []) (λ k. let z = x j k in cc)
            (h.reads j);
    }
Step-InOrder _ _ (ends p e) x q h =
    let top : h.lo + h.size ≡ p.next = rw e at h.queued in
    record {
      lo = h.lo;
      size = h.size;
      waits_for = h.waits_for;
      queued = top;
      below = h.below;
      apart = h.apart;
      reads = h.reads;
    }

initial-Job : (i s : ℕ) → Job (initial.workers i) s → ⊥
initial-Job i s k = elim (Bool-cases (ltb i 20)) [ inl e ↦ rw e at k | inr e ↦ rw e at k ]

initial-Reads : (i : ℕ) → Reads (initial.workers i) []
initial-Reads i = elim (Bool-cases (ltb i 20)) [ inl e ↦ rw e tt | inr e ↦ rw e tt ]

initial-InOrder : InOrder initial
initial-InOrder = record {
  lo = 0;
  size = 0;
  waits_for = refl;
  queued = refl;
  below = λ i s k. absurd (initial-Job i s k);
  apart = λ i j s ne k k'. initial-Job i s k;
  reads = initial-Reads;
}

Reach-InOrder : (p q : Pool) → Reach p q → Excludes p → q.shut ≡ false → InOrder p → InOrder q
Reach-InOrder _ _ (here p) x e h = h
Reach-InOrder _ _ (after p q r ps s) x e h =
    Step-InOrder q r s (Reach-Excludes p q ps x) e (Reach-InOrder p q ps x (Step-running q r s e) h)

upto-above : (s lo n : ℕ) → s < lo → All (λ t. s < t) (upto lo n)
upto-above s lo zero h = tt
upto-above s lo (suc n) h = (h, upto-above s (lo + 1) n (omega arith))

-- In every state that 20 workers of tp.c come to while the server is not shut down, whatever
-- connections come and go: a connection that one worker has taken out of the queue and has not
-- finished, no other has, and all that wait in the queue were accepted after it.
pub thread_worker-InOrder :
    (p : Pool) (i j s : ℕ)
    → Reach initial p
    → p.shut ≡ false
    → Job (p.workers i) s
    → (Job (p.workers j) s → i ≡ j) × All (λ t. s < t) p.queue
thread_worker-InOrder p i j s r running k =
    let h = Reach-InOrder initial p r initial-Excludes running initial-InOrder in
    (
      λ k'. elim (Bool-cases (i == j)) [
        | inl e ↦ (==_iff i j).0 e
        | inr e ↦ absurd (h.apart i j s (ground arith) k k')
      ],
      rw h.waits_for (upto-above s h.lo h.size (h.below i s k)),
    )
