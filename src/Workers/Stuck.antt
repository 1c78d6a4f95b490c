-- ===== src/Workers/Stuck.antt =====
-- A worker of tp.c that stops inside keeps the mutex for good.
use multiplexing_server.Base.{
  ℕ, ◌≡◌, ◌≢◌, refl, inl, inr, Bool-cases, true, none, some, List, [], ◌==◌, ==_iff, arith,
}
use multiplexing_server.Workers.{
  Worker, starting, locking, woken, closing, draining, discarding, stopped, accepted, ended, Pool,
  set_worker, move, shut_down, Step, returns_early, goes_on, locks, waits, dequeues, takes, breaks,
  serves, wakes, relocks, relocks_and_breaks, finishes, is_told, shuts, drains, discards, drained,
  accepts, enqueues, ends, Reach, here, after, initial,
}
use multiplexing_server.Workers.Exclusion.{Inside, Excludes, Reach-Excludes, initial-Excludes}

-- A worker that has returned holds the mutex, and `main` has a connection to put into the queue.
record IsStuck (i s : ℕ) (p : Pool) : Type 0 where
  holds : p.mutex ≡ some i
  returned : p.workers i ≡ stopped
  behind_accept : p.main ≡ accepted s

-- Another worker moves, and leaves the mutex.
moves_beside :
    (i s j : ℕ) (w : Worker) (queue : List ℕ) (p : Pool)
    → IsStuck i s p
    → p.workers j ≢ stopped
    → IsStuck i s (move j w p.mutex queue p)
unfolding set_worker
moves_beside i s j w queue p h ne = record {
  holds = h.holds;
  returned = elim (Bool-cases (i == j)) [
    | inl e ↦ let same : i ≡ j = (==_iff i j).0 e in absurd (ne (rw (← same) h.returned))
    | inr e ↦ rw e h.returned
  ];
  behind_accept = h.behind_accept;
}

closes_beside :
    (i s j : ℕ) (p : Pool) → IsStuck i s p → p.workers j ≢ stopped → IsStuck i s (shut_down j p)
unfolding set_worker shut_down
closes_beside i s j p h ne = record {
  holds = h.holds;
  returned = elim (Bool-cases (i == j)) [
    | inl e ↦ let same : i ≡ j = (==_iff i j).0 e in absurd (ne (rw (← same) h.returned))
    | inr e ↦ rw e (rw h.returned refl)
  ];
  behind_accept = h.behind_accept;
}

-- No other worker is inside.
nobody_else : (i s j : ℕ) (p : Pool) → IsStuck i s p → Excludes p → Inside (p.workers j) → ⊥
nobody_else i s j p h x k =
    let m = x j k in
    let same : i ≡ j = let a = h.holds in ground arith in
    let r : p.workers j ≡ stopped = rw (← same) h.returned in rw r at k

not_free : (i s : ℕ) (p : Pool) → IsStuck i s p → p.mutex ≡ none → ⊥
not_free i s p h e = let a = h.holds in cc

Step-IsStuck : (i s : ℕ) (p q : Pool) → Step p q → Excludes p → IsStuck i s p → IsStuck i s q
Step-IsStuck i s _ _ (returns_early j p e m) x h = moves_beside i s j stopped p.queue p h (λ z. cc)
Step-IsStuck i s _ _ (goes_on j p e m) x h = moves_beside i s j locking p.queue p h (λ z. cc)
Step-IsStuck i s _ _ (locks j p e m) x h = absurd (not_free i s p h m)
Step-IsStuck i s _ _ (waits j p e m) x h = absurd (nobody_else i s j p h x (rw e tt))
Step-IsStuck i s _ _ (dequeues j t queue p e m) x h = absurd (nobody_else i s j p h x (rw e tt))
Step-IsStuck i s _ _ (takes j t queue p e m) x h = absurd (nobody_else i s j p h x (rw e tt))
Step-IsStuck i s _ _ (breaks j t p e m) x h = absurd (nobody_else i s j p h x (rw e tt))
Step-IsStuck i s _ _ (serves j t p e m) x h = absurd (nobody_else i s j p h x (rw e tt))
Step-IsStuck i s _ _ (wakes j p e) x h = moves_beside i s j woken p.queue p h (λ z. cc)
Step-IsStuck i s _ _ (relocks j p e m f) x h = absurd (not_free i s p h m)
Step-IsStuck i s _ _ (relocks_and_breaks j p e m f) x h = absurd (not_free i s p h m)
Step-IsStuck i s _ _ (finishes j t p e) x h = moves_beside i s j starting p.queue p h (λ z. cc)
Step-IsStuck i s _ _ (is_told j t p e) x h = moves_beside i s j closing p.queue p h (λ z. cc)
Step-IsStuck i s _ _ (shuts j p e) x h = closes_beside i s j p h (λ z. cc)
Step-IsStuck i s _ _ (drains j t queue p e m) x h =
    moves_beside i s j (discarding t) p.queue p h (λ z. cc)
Step-IsStuck i s _ _ (discards j t queue p e m) x h =
    moves_beside i s j draining queue p h (λ z. cc)
Step-IsStuck i s _ _ (drained j p e m) x h = moves_beside i s j starting p.queue p h (λ z. cc)
Step-IsStuck i s _ _ (accepts p e) x h = let a = h.behind_accept in absurd (cc)
Step-IsStuck i s _ _ (enqueues t p e m) x h = absurd (not_free i s p h m)
Step-IsStuck i s _ _ (ends p e) x h = let a = h.behind_accept in absurd (cc)

Reach-IsStuck : (i s : ℕ) (p q : Pool) → Reach p q → Excludes p → IsStuck i s p → IsStuck i s q
Reach-IsStuck i s _ _ (here p) x h = h
Reach-IsStuck i s _ _ (after p q r ps t) x h =
    Step-IsStuck i s q r t (Reach-Excludes p q ps x) (Reach-IsStuck i s p q ps x h)

-- A connection is served, another worker waits, `main` accepts a second connection, and the first asks
-- for the shutdown.
shutdown_trace : (p : Pool) × Reach initial p × (p.shut ≡ true) × IsStuck 1 1 p
unfolding set_worker shut_down
shutdown_trace =
    let a1 = after _ _ _ (here initial) (accepts initial refl) in
    let a2 = after _ _ _ a1 (enqueues 0 _ refl refl) in
    let a3 = after _ _ _ a2 (goes_on 0 _ refl refl) in
    let a4 = after _ _ _ a3 (locks 0 _ refl refl) in
    let a5 = after _ _ _ a4 (dequeues 0 0 [] _ refl refl) in
    let t5 = after _ _ _ a5 (takes 0 0 [] _ refl (λ rest e. ground arith)) in
    let a6 = after _ _ _ t5 (serves 0 0 _ refl refl) in
    let b1 = after _ _ _ a6 (goes_on 1 _ refl refl) in
    let b2 = after _ _ _ b1 (locks 1 _ refl refl) in
    let b3 = after _ _ _ b2 (waits 1 _ refl refl) in
    let c1 = after _ _ _ b3 (is_told 0 0 _ refl) in
    let c2 = after _ _ _ c1 (accepts _ refl) in
    let c3 = after _ _ _ c2 (shuts 0 _ refl) in
    let c4 = after _ _ _ c3 (relocks_and_breaks 1 _ refl refl refl) in
    (_, c4, refl, record { holds = refl; returned = refl; behind_accept = refl })

-- 20 workers of tp.c come to a state, with the server shut down, from which `main` never gets out of
-- its loop: a worker has returned from its wait with the mutex locked, and `main` is at the lock with a
-- connection that it has accepted.
pub main-never_ends :
    (p : Pool) × Reach initial p × (p.shut ≡ true) × ((q : Pool) → Reach p q → q.main ≢ ended)
main-never_ends =
    let (p, r, e, h) = shutdown_trace in
    (
      p,
      r,
      e,
      λ q t z.
          let g = Reach-IsStuck 1 1 p q t (Reach-Excludes initial p r initial-Excludes) h in
          let a = g.behind_accept in cc,
    )
