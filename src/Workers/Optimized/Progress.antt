-- ===== src/Workers/Optimized/Progress.antt =====
-- No worker of tp_optimized.c waits for the mutex for good.
use multiplexing_server.Base.{
  ℕ, ◌≡◌, ◌≢◌, ◌⊎◌, refl, inl, inr, Bool-cases, Option-cases, none, some, List, [], ◌∷◌, ltb, arith,
}
use multiplexing_server.Workers.{
  Worker, starting, locking, looking, taking, found, waiting, woken, serving, closing, draining,
  discarding, stopped, Pool, move, wake, shut_down, initial,
}
use multiplexing_server.Workers.Exclusion.{set_worker-all}
use multiplexing_server.Workers.Optimized.{
  StepOptimized, locks, relocks, waits, returns, serves, wakes, finishes, is_told, shuts, drains,
  discards, drained, accepts, enqueues, turns_away, ends, ReachOptimized, here, after,
}

abbrev IsLooking : Worker → Type 0
IsLooking looking = Unit
IsLooking _ = ⊥

-- The workers at `dequeue` are those that hold the mutex.
record Owned (p : Pool) : Type 0 where
  looks : (i : ℕ) → IsLooking (p.workers i) → p.mutex ≡ some i
  holder : (i : ℕ) → p.mutex ≡ some i → p.workers i ≡ looking

wake-IsLooking : (w : Worker) → IsLooking (wake w) → IsLooking w
wake-IsLooking waiting h = absurd h
wake-IsLooking looking h = tt
wake-IsLooking (taking s) h = absurd h
wake-IsLooking (found s) h = absurd h
wake-IsLooking starting h = absurd h
wake-IsLooking locking h = absurd h
wake-IsLooking woken h = absurd h
wake-IsLooking (serving s) h = absurd h
wake-IsLooking closing h = absurd h
wake-IsLooking draining h = absurd h
wake-IsLooking (discarding s) h = absurd h
wake-IsLooking stopped h = absurd h

-- A worker that is not at `dequeue` moves on to another place outside.
moves_outside :
    (i : ℕ) (w : Worker) (queue : List ℕ) (p : Pool)
    → Owned p
    → p.workers i ≢ looking
    → (IsLooking w → ⊥)
    → Owned (move i w p.mutex queue p)
moves_outside i w queue p h ne out = record {
  looks =
      set_worker-all (λ j v. IsLooking v → p.mutex ≡ some j) p.workers i w (λ k. absurd (out k))
        (λ j nj. h.looks j);
  holder =
      set_worker-all (λ j v. p.mutex ≡ some j → v ≡ looking) p.workers i w
        (λ e. absurd (ne (h.holder i e))) (λ j nj. h.holder j);
}

-- A worker takes the mutex when it is free.
takes_mutex :
    (i : ℕ) (p : Pool) → Owned p → p.mutex ≡ none → Owned (move i looking (some i) p.queue p)
takes_mutex i p h e = record {
  looks =
      set_worker-all (λ j v. IsLooking v → some i ≡ some j) p.workers i looking (λ k. refl)
        (λ j ne k. let m = h.looks j k in absurd (cc));
  holder =
      set_worker-all (λ j v. some i ≡ some j → v ≡ looking) p.workers i looking (λ k. refl)
        (λ j ne k. absurd (ne (ground arith)));
}

-- A worker leaves the mutex.
leaves_mutex :
    (i : ℕ) (w : Worker) (queue : List ℕ) (p : Pool)
    → Owned p
    → p.workers i ≡ looking
    → (IsLooking w → ⊥)
    → Owned (move i w none queue p)
leaves_mutex i w queue p h e out =
    let mine = h.looks i (rw e tt) in
    record {
      looks =
          set_worker-all (λ j v. IsLooking v → none ≡ some j) p.workers i w (λ k. absurd (out k))
            (λ j ne k. let m = h.looks j k in absurd (ne (ground arith)));
      holder = λ j k. absurd (cc);
    }

shuts_down : (i : ℕ) (p : Pool) → Owned p → p.mutex ≡ none → Owned (shut_down i p)
unfolding shut_down
shuts_down i p h e = record {
  looks =
      set_worker-all (λ j v. IsLooking v → p.mutex ≡ some j) (λ j. wake (p.workers j)) i draining
        (λ k. absurd k) (λ j ne k. h.looks j (wake-IsLooking (p.workers j) k));
  holder = λ j k. absurd (cc);
}

Step-Owned : (p q : Pool) → StepOptimized p q → Owned p → Owned q
Step-Owned _ _ (locks i p e m) h = takes_mutex i p h m
Step-Owned _ _ (relocks i p e m) h = takes_mutex i p h m
Step-Owned _ _ (waits i p e m s) h = leaves_mutex i waiting p.queue p h e (λ k. k)
Step-Owned _ _ (returns i p e m s) h = leaves_mutex i stopped p.queue p h e (λ k. k)
Step-Owned _ _ (serves i s queue p e m) h = leaves_mutex i (serving s) queue p h e (λ k. k)
Step-Owned _ _ (wakes i p e) h = moves_outside i woken p.queue p h (λ z. cc) (λ k. k)
Step-Owned _ _ (finishes i s p e) h = moves_outside i starting p.queue p h (λ z. cc) (λ k. k)
Step-Owned _ _ (is_told i s p e) h = moves_outside i closing p.queue p h (λ z. cc) (λ k. k)
Step-Owned _ _ (shuts i p e m) h = shuts_down i p h m
Step-Owned _ _ (drains i s queue p e m) h =
    moves_outside i (discarding s) p.queue p h (λ z. cc) (λ k. k)
Step-Owned _ _ (discards i s queue p e m) h = moves_outside i draining queue p h (λ z. cc) (λ k. k)
Step-Owned _ _ (drained i p e m) h = moves_outside i starting p.queue p h (λ z. cc) (λ k. k)
Step-Owned _ _ (accepts p e) h = record { looks = h.looks; holder = h.holder }
Step-Owned _ _ (enqueues s p e m lt) h = record { looks = h.looks; holder = h.holder }
Step-Owned _ _ (turns_away s p e m le) h = record { looks = h.looks; holder = h.holder }
Step-Owned _ _ (ends p e) h = record { looks = h.looks; holder = h.holder }

initial-Owned : Owned initial
initial-Owned = record {
  looks = λ i k. elim (Bool-cases (ltb i 20)) [
    | inl e ↦ absurd (rw e at k)
    | inr e ↦ absurd (rw e at k)
  ];
  holder = λ i e. absurd (cc);
}

Reach-Owned : (p q : Pool) → ReachOptimized p q → Owned p → Owned q
Reach-Owned _ _ (here p) h = h
Reach-Owned _ _ (after p q r ps s) h = Step-Owned q r s (Reach-Owned p q ps h)

-- A worker that holds the mutex has a step, behind which the mutex is free.
holder_leaves :
    (i : ℕ) (p : Pool) → p.workers i ≡ looking → (q : Pool) × StepOptimized p q × (q.mutex ≡ none)
holder_leaves i p e = next p.queue refl
  where
    next : (queue : List ℕ) → p.queue ≡ queue → (q : Pool) × StepOptimized p q × (q.mutex ≡ none)
    next (s ∷ queue) m = (move i (serving s) none queue p, serves i s queue p e m, refl)
    next [] m = elim (Bool-cases p.shut) [
      | inl s ↦ (move i stopped none p.queue p, returns i p e m s, refl)
      | inr s ↦ (move i waiting none p.queue p, waits i p e m s, refl)
    ]

-- In every state that 20 workers of tp_optimized.c come to, whatever connections come and go and
-- whenever the server is shut down, the mutex is free, or the worker that holds it has a step that
-- leaves it.
pub thread_worker_optimized-leaves_mutex :
    (p : Pool)
    → ReachOptimized initial p
    → (p.mutex ≡ none)
      ⊎ ((i : ℕ) × (p.mutex ≡ some i) × (q : Pool) × StepOptimized p q × (q.mutex ≡ none))
thread_worker_optimized-leaves_mutex p r =
    let h = Reach-Owned initial p r initial-Owned in
    elim (Option-cases p.mutex) [
      | inl e ↦ inl e
      | inr (i, e) ↦ let (q, t, f) = holder_leaves i p (h.holder i e) in inr (i, e, q, t, f)
    ]
