-- ===== src/Server/Stops.antt =====
-- The messages that end a connection: those of a type that is not known, and the one that shuts the
-- server down.
use multiplexing_server.Base.{
  ℕ, zero, suc, ◌/◌, ◌%◌, ◌^◌, ◌<◌, ◌≡◌, ◌≢◌, refl, false, Option, List, [], ◌∷◌, ok, length, arith,
  ==_of_ne,
}
use multiplexing_server.Codec.Dict.{Dict}
use multiplexing_server.Message.{Socket, rest_of, has_payload}
use multiplexing_server.Message.Laws.{get_description-bare}
use multiplexing_server.Fifo
use multiplexing_server.Fifo.{Fifo}
use multiplexing_server.WorkQueue.{WorkQueue}
use multiplexing_server.WorkQueue.Refine
use multiplexing_server.WorkQueue.Refine.{dequeue_refines}
use multiplexing_server.Response.{error_send, FileSystem, Entry}
use multiplexing_server.Server.{
  ThreadPool, Turn, closes, shuts_down, drain, shut_down, handle_message, handle, client_handling,
}

-- What `drain` makes of a queue.
record Drains (fuel : ℕ) (q : WorkQueue) (xs : List ℕ) : Type 0 where
  queue : WorkQueue
  nodes : List ℕ
  returns : drain fuel q ≡ ok (xs, queue)
  empty : Refine.Holds queue nodes []

drain-Drains :
    (fuel : ℕ) (q : WorkQueue) (ps xs : List ℕ)
    → length xs < fuel
    → Refine.Holds q ps xs
    → Drains fuel q xs
unfolding drain Fifo.pop
drain-Drains zero q ps xs lt v = absurd (omega arith)
drain-Drains (suc fuel) q ps [] lt v =
    let (q', qs, e, w) = dequeue_refines q ps [] v in
    record { queue = q'; nodes = qs; returns = rw e (refl); empty = w }
drain-Drains (suc fuel) q ps (x ∷ xs) lt v =
    let (q', qs, e, w) = dequeue_refines q ps (x ∷ xs) v in
    let rest = drain-Drains fuel q' qs xs (omega arith) (w) in
    record {
      queue = rest.queue;
      nodes = rest.nodes;
      returns = rw e (rw rest.returns refl);
      empty = rest.empty;
    }

module _ (header_junk : ℕ) (malloc_junk junk : ℕ → ℕ) (dict : Dict) (files : FileSystem)
    (directory : List ℕ) (entries : Option (List Entry)) (list_fuel : ℕ) where
  -- Unless the server is shut down, a first byte whose type is none that the server knows: the
  -- client gets an error message, the connection is closed, and nothing behind that byte is read.
  pub client_handling_unknown :
      (fuel : ℕ) (turns : ℕ → Turn) (b : ℕ) (rest : List ℕ) (socket : Socket) (pool : ThreadPool)
      → pool.shut ≢ 1
      → has_payload (b / 2 ^ 4 % 16) ≡ false
      → b / 2 ^ 4 % 16 ≢ 8
      → client_handling header_junk malloc_junk junk dict files directory entries list_fuel
          (suc fuel)
          turns
          (rest_of (b ∷ rest) socket)
          pool
        ≡ ok (closes, error_send, rest_of rest socket, pool)
  unfolding client_handling handle handle_message
  client_handling_unknown fuel turns b rest socket pool hs hp h8 = rw (==_of_ne pool.shut 1 hs) (
      rw (get_description-bare header_junk malloc_junk dict b rest socket hp)
        (rw (hp, ==_of_ne (b / 2 ^ 4 % 16) 8 h8) refl))

  -- A message of type 8, unless the server is shut down: the waiting connections, in the order in
  -- which they came, are closed, `shut` is set, and the queue is left empty. One unit of fuel more
  -- than there are waiting connections is enough.
  pub client_handling_shutdown :
      (fuel : ℕ) (turns : ℕ → Turn) (b : ℕ) (rest : List ℕ) (socket : Socket) (pool : ThreadPool)
      (nodes waiting : List ℕ)
      → pool.shut ≢ 1
      → b / 2 ^ 4 % 16 ≡ 8
      → Refine.Holds pool.queue nodes waiting
      → length waiting < list_fuel
      → (q : WorkQueue) × (qs : List ℕ) × Refine.Holds q qs []
        × (client_handling header_junk malloc_junk junk dict files directory entries list_fuel
              (suc fuel)
              turns
              (rest_of (b ∷ rest) socket)
              pool
            ≡ ok (shuts_down waiting, [], rest_of rest socket, record pool { shut = 1; queue = q }))
  unfolding client_handling handle handle_message shut_down has_payload
  client_handling_shutdown fuel turns b rest socket pool nodes waiting hs h8 v lt =
      let w = drain-Drains list_fuel pool.queue nodes waiting lt v in
      let bare_type : has_payload (b / 2 ^ 4 % 16) ≡ false = rw h8 refl in
      (
        w.queue,
        w.nodes,
        w.empty,
        rw (==_of_ne pool.shut 1 hs) (
            rw (get_description-bare header_junk malloc_junk dict b rest socket bare_type)
              (rw h8 (rw w.returns refl))),
      )
