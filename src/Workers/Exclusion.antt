-- ===== src/Workers/Exclusion.antt =====
-- At most one worker of tp.c is between the lock and the unlock.
use multiplexing_server.Base.{
  ℕ, ◌≡◌, ◌≢◌, refl, inl, inr, Bool-cases, Option, none, some, List, ltb, ◌==◌, ==_iff, arith,
}
use multiplexing_server.Workers.{
  Worker, starting, locking, looking, taking, found, waiting, woken, serving, closing, draining,
  discarding, stopped, Pool, set_worker, move, wake, shut_down, Step, returns_early, goes_on, locks,
  waits, dequeues, takes, breaks, serves, wakes, relocks, relocks_and_breaks, finishes, is_told,
  shuts, drains, discards, drained, accepts, enqueues, ends, Reach, here, after, initial,
}

-- At `dequeue` with the mutex, inside of it, or behind it.
abbrev pub Inside : Worker → Type 0
Inside looking = Unit
Inside (taking s) = Unit
Inside (found s) = Unit
Inside _ = ⊥

-- Who is inside holds the mutex.
abbrev pub Excludes : Pool → Type 0
Excludes p = (i : ℕ) → Inside (p.workers i) → p.mutex ≡ some i

pub wake-Inside : (w : Worker) → Inside (wake w) → Inside w
wake-Inside waiting h = absurd h
wake-Inside looking h = tt
wake-Inside (taking s) h = tt
wake-Inside (found s) h = tt
wake-Inside starting h = absurd h
wake-Inside locking h = absurd h
wake-Inside woken h = absurd h
wake-Inside (serving s) h = absurd h
wake-Inside closing h = absurd h
wake-Inside draining h = absurd h
wake-Inside (discarding s) h = absurd h
wake-Inside stopped h = absurd h

-- What holds of the worker that moves and of the others holds of all.
pub set_worker-all {κ} :
    (P : ℕ → Worker → Type κ) (workers : ℕ → Worker) (i : ℕ) (w : Worker)
    → P i w
    → ((j : ℕ) → j ≢ i → P j (workers j))
    → (j : ℕ) → P j (set_worker workers i w j)
unfolding set_worker
set_worker-all P workers i w h others j = elim (Bool-cases (j == i)) [
  | inl e ↦ let same : j ≡ i = (==_iff j i).0 e in rw e (rw same h)
  | inr e ↦ rw e (others j (ground arith))
]

-- A worker that moves with the mutex left as it is, and outside.
moves_outside :
    (i : ℕ) (w : Worker) (queue : List ℕ) (p : Pool)
    → Excludes p
    → (Inside w → ⊥)
    → Excludes (move i w p.mutex queue p)
moves_outside i w queue p h out =
    set_worker-all (λ j v. Inside v → p.mutex ≡ some j) p.workers i w (λ k. absurd (out k))
      (λ j ne. h j)

-- A worker that has been inside and leaves the mutex, or takes it when it is free.
changes_mutex :
    (i : ℕ) (w : Worker) (mutex : Option ℕ) (queue : List ℕ) (p : Pool)
    → ((j : ℕ) → j ≢ i → Inside (p.workers j) → ⊥)
    → (Inside w → mutex ≡ some i)
    → Excludes (move i w mutex queue p)
changes_mutex i w mutex queue p out h =
    set_worker-all (λ j v. Inside v → mutex ≡ some j) p.workers i w h
      (λ j ne k. absurd (out j ne k))

pub others_outside :
    (i : ℕ) (p : Pool) → Excludes p → p.mutex ≡ some i → (j : ℕ) → j ≢ i → Inside (p.workers j) → ⊥
others_outside i p h e j ne k = let m = h j k in ne (ground arith)

all_outside :
    (p : Pool) → Excludes p → p.mutex ≡ none → (i j : ℕ) → j ≢ i → Inside (p.workers j) → ⊥
all_outside p h e i j ne k = let m = h j k in cc

Step-Excludes : (p q : Pool) → Step p q → Excludes p → Excludes q
Step-Excludes _ _ (returns_early i p e s) h = moves_outside i stopped p.queue p h (λ k. k)
Step-Excludes _ _ (goes_on i p e s) h = moves_outside i locking p.queue p h (λ k. k)
Step-Excludes _ _ (locks i p e m) h =
    changes_mutex i looking (some i) p.queue p (all_outside p h m i) (λ k. refl)
Step-Excludes _ _ (waits i p e m) h =
    changes_mutex i waiting none p.queue p (others_outside i p h (h i (rw e tt))) (λ k. absurd k)
Step-Excludes _ _ (dequeues i s queue p e m) h =
    let mine = h i (rw e tt) in
    changes_mutex i (taking s) p.mutex p.queue p (others_outside i p h mine) (λ k. mine)
Step-Excludes _ _ (takes i s queue p e m) h =
    let mine = h i (rw e tt) in
    changes_mutex i (found s) p.mutex queue p (others_outside i p h mine) (λ k. mine)
Step-Excludes _ _ (breaks i s p e m) h = moves_outside i stopped p.queue p h (λ k. k)
Step-Excludes _ _ (serves i s p e m) h =
    changes_mutex i (serving s) none p.queue p (others_outside i p h (h i (rw e tt)))
      (λ k. absurd k)
Step-Excludes _ _ (wakes i p e) h = moves_outside i woken p.queue p h (λ k. k)
Step-Excludes _ _ (relocks i p e m s) h =
    changes_mutex i looking (some i) p.queue p (all_outside p h m i) (λ k. refl)
Step-Excludes _ _ (relocks_and_breaks i p e m s) h =
    changes_mutex i stopped (some i) p.queue p (all_outside p h m i) (λ k. absurd k)
Step-Excludes _ _ (finishes i s p e) h = moves_outside i starting p.queue p h (λ k. k)
Step-Excludes _ _ (is_told i s p e) h = moves_outside i closing p.queue p h (λ k. k)
Step-Excludes _ _ (shuts i p e) h =
    unfold shut_down in
    set_worker-all (λ j v. Inside v → p.mutex ≡ some j) (λ j. wake (p.workers j)) i draining
      (λ k. absurd k) (λ j ne k. h j (wake-Inside (p.workers j) k))
Step-Excludes _ _ (drains i s queue p e m) h = moves_outside i (discarding s) p.queue p h (λ k. k)
Step-Excludes _ _ (discards i s queue p e m) h = moves_outside i draining queue p h (λ k. k)
Step-Excludes _ _ (drained i p e m) h = moves_outside i starting p.queue p h (λ k. k)
Step-Excludes _ _ (accepts p e) h = h
Step-Excludes _ _ (enqueues s p e m) h = h
Step-Excludes _ _ (ends p e) h = h

pub initial-Excludes : Excludes initial
initial-Excludes i k = elim (Bool-cases (ltb i 20)) [
  | inl e ↦ absurd (rw e at k)
  | inr e ↦ absurd (rw e at k)
]

pub Reach-Excludes : (p q : Pool) → Reach p q → Excludes p → Excludes q
Reach-Excludes _ _ (here p) h = h
Reach-Excludes _ _ (after p q r ps s) h = Step-Excludes q r s (Reach-Excludes p q ps h)

-- In every state that 20 workers of tp.c come to, whatever connections come and go, at most one of them
-- is at its call of `dequeue` or between it and the unlock.
pub thread_worker-Excludes :
    (p : Pool) (i j : ℕ) → Reach initial p → Inside (p.workers i) → Inside (p.workers j) → i ≡ j
thread_worker-Excludes p i j r hi hj =
    let h = Reach-Excludes initial p r initial-Excludes in
    let a = h i hi in let b = h j hj in ground arith
