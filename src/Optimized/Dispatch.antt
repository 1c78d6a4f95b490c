-- ===== src/Optimized/Dispatch.antt =====
-- `client_handling_optimized` of tp_optimized.c. What it shares with `client_handling` is as in Server:
-- a `Turn` stands for the other threads. The mutex around `shut = 1` and the memory pool are left out.
pub mod Echoes
pub mod Stops
mod Tests
use multiplexing_server.Base.{
  ℕ, zero, suc, ◌+◌, ◌&&◌, not, Option, none, some, List, [], ◌∷◌, ◌++◌, Outcome, ok, unfinished,
  ◌>>=◌, or_fault, ◌==◌, if◌then◌else◌,
}
use multiplexing_server.Links.{update}
use multiplexing_server.Codec.Dict.{Dict}
use multiplexing_server.Message.{Message, Description, closed, bare, full, Socket, has_payload}
use multiplexing_server.RequestList.{FileRequest, RequestList, add, find, remove_node}
use multiplexing_server.CircularQueue.{CircularQueue, cq_dequeue}
use multiplexing_server.Response.{Event, error_send, FileSystem, Entry}
use multiplexing_server.Segments.{Piece, dissect_file_request, child_send}
use multiplexing_server.Server.{
  Turn, Next, continues, closes, leaves_open, shuts_down, differs, set_pipe,
}
use multiplexing_server.Optimized.Reading.{get_description_optimized}
use multiplexing_server.Optimized.Handlers.{
  echo_optimized, file_size_response_optimized, directory_send_optimized,
}
use multiplexing_server.Optimized.Transfer.{parent_send_optimized}

-- What `client_handling_optimized` reads and writes of `thread_pool_optimized`.
pub record ThreadPoolOptimized : Type 0 where
  pub shut : ℕ
  pub queue : CircularQueue
  pub requests_list : RequestList
  pub pipe : ℕ → List Piece

-- `while ((f = cq_dequeue(&tp->queue)) != NULL) close(*f);`
pub cq_drain : ℕ → CircularQueue → Outcome (List ℕ × CircularQueue)
cq_drain zero q = unfinished
cq_drain (suc fuel) q =
    let (o, q') = cq_dequeue q in
    let rest = cq_drain fuel q' in
    elim o [ none ↦ ok ([], q') | some f ↦ do (fs, q'') ← rest; ok (f ∷ fs, q'') ]

-- Of a message without a payload the type alone is set, and the type alone is read.
abbrev typed : ℕ → Message
typed type = record {
  type = type;
  compression = 0;
  requires_compression = 0;
  length = 0;
  buffer = none;
}

-- The rest is over what the calls of `send` take, what stands in fresh memory, the dictionary, the
-- files, the entries of the directory, and the fuel for the loops over the list and the queue.
module _ (accept malloc_junk junk : ℕ → ℕ) (dict : Dict) (files : FileSystem) (directory : List ℕ)
    (entries : Option (List Entry)) (list_fuel : ℕ) where
  -- A request whose session is in the list.
  pub join_request_optimized :
      FileRequest
      → ℕ
      → Message
      → ThreadPoolOptimized
      → Outcome (Next × List Event × ThreadPoolOptimized)
  join_request_optimized req q msg pool = do
    curr ← or_fault (pool.requests_list.cell q)
    if differs req curr then ok (closes, error_send, pool) else (do
      let joined : FileRequest = record curr { num_connect = curr.num_connect + 1 }
      (es, rest) ←
          child_send malloc_junk junk dict msg.requires_compression files directory joined
            (pool.pipe q)
      ok (
        closes,
        es,
        record pool {
          requests_list = record pool.requests_list {
            cell = update pool.requests_list.cell q (some joined);
          };
          pipe = set_pipe pool.pipe q rest;
        },
      ))

  -- A request with a session of its own.
  pub start_request_optimized :
      Turn
      → FileRequest
      → Message
      → ThreadPoolOptimized
      → Outcome (Next × List Event × ThreadPoolOptimized)
  start_request_optimized turn req msg pool = do
    let started : FileRequest = record req { num_connect = 0 }
    let p = turn.address
    list ←
        add (record pool.requests_list { cell = update pool.requests_list.cell p (some started) }) p
    (es, pieces) ←
        parent_send_optimized accept malloc_junk junk dict msg.requires_compression files directory
          started
    list' ← remove_node list_fuel (turn.others list) p
    ok (continues, es, record pool { requests_list = list'; pipe = set_pipe pool.pipe p pieces })

  -- `case 0x6`
  pub handle_request_optimized :
      Turn → Message → ThreadPoolOptimized → Outcome (Next × List Event × ThreadPoolOptimized)
  handle_request_optimized turn msg pool = do
    req ← dissect_file_request turn.num_connect turn.next msg
    found ← find list_fuel pool.requests_list req.session_id
    elim found [
      | some q ↦ join_request_optimized req q msg pool
      | none ↦ start_request_optimized turn req msg pool
    ]

  -- `case 0x8`
  pub shut_down_optimized : ThreadPoolOptimized → Outcome (Next × List Event × ThreadPoolOptimized)
  shut_down_optimized pool = do
    (fs, q) ← cq_drain list_fuel pool.queue
    ok (shuts_down fs, [], record pool { shut = 1; queue = q })

  -- The test of the type, and the `switch` over those that pass it.
  pub handle_message_optimized :
      Turn → Message → ThreadPoolOptimized → Outcome (Next × List Event × ThreadPoolOptimized)
  handle_message_optimized turn msg pool =
      if not (has_payload msg.type) && not (msg.type == 8)
      then ok (closes, error_send, pool)
      else if msg.type == 0
      then (echo_optimized accept junk dict msg >>= λ r. ok (continues, r.0, pool))
      else if msg.type == 2
      then (directory_send_optimized accept junk dict entries msg >>= λ es.
          ok (continues, es, pool))
      else if msg.type == 4
      then (file_size_response_optimized accept junk dict files directory msg >>= λ es.
          ok (continues, es, pool))
      else if msg.type == 6
      then handle_request_optimized turn msg pool
      else shut_down_optimized pool

  pub handle_optimized :
      Turn → Description → ThreadPoolOptimized → Outcome (Next × List Event × ThreadPoolOptimized)
  handle_optimized turn closed pool = ok (closes, [], pool)
  handle_optimized turn (bare type) pool = handle_message_optimized turn (typed type) pool
  handle_optimized turn (full msg) pool = handle_message_optimized turn msg pool

  -- With the socket as it is left, and one unit of fuel for each message.
  pub client_handling_optimized :
      ℕ
      → (ℕ → Turn)
      → Socket
      → ThreadPoolOptimized
      → Outcome (Next × List Event × Socket × ThreadPoolOptimized)
  client_handling_optimized zero turns socket pool = unfinished
  client_handling_optimized (suc fuel) turns socket pool =
      if pool.shut == 1 then ok (leaves_open, [], socket, pool) else (do
        (d, socket') ← get_description_optimized dict socket
        (next, es, pool') ← handle_optimized (turns fuel) d pool
        let rest = client_handling_optimized fuel turns socket' pool'
        elim next [
          | continues ↦ do
            (next', fs, socket'', pool'') ← rest
            ok (next', es ++ fs, socket'', pool'')
          | stop ↦ ok (stop, es, socket', pool')
        ])
