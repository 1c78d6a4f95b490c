-- ===== src/CircularQueue/Tests.antt =====
-- An empty queue, and the theorems at it.
use multiplexing_server.Base.{ℕ, ◌≡◌, refl, none, some, [], ◌∷◌, replicate, length-replicate, arith}
use multiplexing_server.Fifo
use multiplexing_server.Fifo.{put, get, stored, item}
use multiplexing_server.CircularQueue.{CircularQueue, queue_size, run}
use multiplexing_server.CircularQueue.Refine.{Holds, run_refines}

-- Its indices are at the end of the array.
abbrev pub empty : CircularQueue
empty = record { items = replicate 1024 0; head = 1023; tail = 1023; count = 0 }

pub empty-Holds : Holds empty []
empty-Holds = record {
  room = length-replicate {A = ℕ} 1024 0;
  head_in = omega arith;
  tail_at = refl;
  counted = refl;
  fits = omega arith;
  slots = λ i x e. absurd (cc);
}

run_refines_example :
    run empty (put 7 ∷ put 8 ∷ get ∷ get ∷ get ∷ [])
    ≡ Fifo.run queue_size [] (put 7 ∷ put 8 ∷ get ∷ get ∷ get ∷ [])
run_refines_example = run_refines (put 7 ∷ put 8 ∷ get ∷ get ∷ get ∷ []) empty [] empty-Holds

-- What the specification answers.
fifo_run :
    Fifo.run 1024 [] (put 7 ∷ put 8 ∷ get ∷ get ∷ get ∷ [])
    ≡ stored ∷ stored ∷ item (some 7) ∷ item (some 8) ∷ item none ∷ []
unfolding Fifo.run Fifo.step Fifo.push Fifo.pop
fifo_run = refl
