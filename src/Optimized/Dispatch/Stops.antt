-- ===== src/Optimized/Dispatch/Stops.antt =====
-- The message that shuts the optimised server down, and a request that does not fit its session.
use multiplexing_server.Base.{
  ℕ, zero, suc, ◌/◌, ◌%◌, ◌^◌, ◌<◌, ◌≡◌, ◌≢◌, refl, Option, List, [], ◌∷◌, ok, length, ==_of_ne,
  arith,
}
use multiplexing_server.Codec.Dict.{Dict}
use multiplexing_server.Message.{bare, Socket, has_payload}
use multiplexing_server.Fifo
use multiplexing_server.CircularQueue.{CircularQueue, queue_size, cq_dequeue}
use multiplexing_server.CircularQueue.Refine.{Holds, cq_dequeue_refines}
use multiplexing_server.Response.{FileSystem, Entry}
use multiplexing_server.Server.{Turn, shuts_down}
use multiplexing_server.Optimized.Reading.Stream.{stream, AllArrive}
use multiplexing_server.Optimized.Reading.Stream.Described.{describe_stream}
use multiplexing_server.Optimized.Reading.Arrivals.{get_description_optimized-Describes}
use multiplexing_server.Optimized.Dispatch.{
  ThreadPoolOptimized, cq_drain, shut_down_optimized, handle_message_optimized, handle_optimized,
  client_handling_optimized,
}

-- What `cq_drain` makes of a queue.
record Drains (fuel : ℕ) (q : CircularQueue) (xs : List ℕ) : Type 0 where
  queue : CircularQueue
  returns : cq_drain fuel q ≡ ok (xs, queue)
  empty : Holds queue []

cq_drain-Drains :
    (fuel : ℕ) (q : CircularQueue) (xs : List ℕ) → length xs < fuel → Holds q xs → Drains fuel q xs
unfolding cq_drain Fifo.pop
cq_drain-Drains zero q xs lt v = absurd (omega arith)
cq_drain-Drains (suc fuel) q [] lt v =
    let (e, w) = cq_dequeue_refines q [] v in
    record { queue = (cq_dequeue q).1; returns = rw (e, cq_drain) refl; empty = w }
cq_drain-Drains (suc fuel) q (x ∷ xs) lt v =
    let (e, w) = cq_dequeue_refines q (x ∷ xs) v in
    let rest = cq_drain-Drains fuel (cq_dequeue q).1 xs (omega arith) w in
    record {
      queue = rest.queue;
      returns = rw (e, cq_drain) (rw rest.returns refl);
      empty = rest.empty;
    }

module _ (accept malloc_junk junk : ℕ → ℕ) (dict : Dict) (files : FileSystem) (directory : List ℕ)
    (entries : Option (List Entry)) (list_fuel : ℕ) where
  -- A message of type 8 on a connection that does not fail, unless the server is shut down: the waiting
  -- connections, in the order in which they came, are closed, `shut` is set, the queue is left empty,
  -- and nothing is read behind the first byte. One unit of fuel more than there are waiting connections
  -- is enough, so 1025 always are.
  pub client_handling_optimized_shutdown :
      (fuel : ℕ) (turns : ℕ → Turn) (b : ℕ) (rest : List ℕ) (socket : Socket)
      (pool : ThreadPoolOptimized) (waiting : List ℕ)
      → pool.shut ≢ 1
      → b / 2 ^ 4 % 16 ≡ 8
      → AllArrive socket
      → stream socket ≡ b ∷ rest
      → Holds pool.queue waiting
      → queue_size < list_fuel
      → (socket' : Socket) × (q : CircularQueue) × Holds q []
        × (stream socket' ≡ rest)
        × (client_handling_optimized accept malloc_junk junk dict files directory entries list_fuel
              (suc fuel)
              turns
              socket
              pool
            ≡ ok (shuts_down waiting, [], socket', record pool { shut = 1; queue = q }))
  unfolding client_handling_optimized handle_optimized handle_message_optimized shut_down_optimized
      has_payload describe_stream
  client_handling_optimized_shutdown fuel turns b rest socket pool waiting hs h8 arrive e v lt =
      let w = cq_drain-Drains list_fuel pool.queue waiting (omega (arith, v.counted, v.fits)) v in
      let d =
        get_description_optimized-Describes dict socket (bare 8) rest arrive (rw e (rw h8 refl)) in
      (
        d.socket',
        w.queue,
        w.empty,
        d.behind,
        rw (==_of_ne pool.shut 1 hs) (rw d.returns (rw w.returns refl)),
      )
