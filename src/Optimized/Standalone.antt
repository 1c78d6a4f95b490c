-- ===== src/Optimized/Standalone.antt =====
-- server_optimized.c: what a worker does with one connection, with the handlers of message_handling.c.
-- A `Turn` stands for the other threads, as in Server; no other thread shuts the server down.
pub mod Ends
mod Tests
use multiplexing_server.Base.{
  ℕ, zero, suc, ◌+◌, Option, none, some, List, [], ◌∷◌, ◌++◌, Outcome, ok, unfinished, ◌>>=◌,
  or_fault, ◌==◌, if◌then◌else◌,
}
use multiplexing_server.Links.{update}
use multiplexing_server.Codec.Dict.{Dict}
use multiplexing_server.Message.{Message, Description, closed, bare, full, Socket, get_description}
use multiplexing_server.RequestList.{FileRequest, RequestList, add, find, remove_node}
use multiplexing_server.Response.{
  Event, error_send, FileSystem, Entry, echo, file_size_response, directory_send,
}
use multiplexing_server.Segments.{Piece, dissect_file_request, child_send, parent_send}
use multiplexing_server.Server.{Turn, set_pipe}
use multiplexing_server.Optimized.Dispatch.{ThreadPoolOptimized}

-- What comes of a message: the next one is read, or the connection is closed and the worker takes
-- another, or it is closed and the worker returns.
pub data Served : Type 0 where
  goes_on : Served
  connection_closed : Served
  worker_returns : Served

-- Of a message without a payload the type alone is set, and the type alone is read.
abbrev pub typed : ℕ → Message
typed type = record {
  type = type;
  compression = 0;
  requires_compression = 0;
  length = 0;
  buffer = none;
}

-- The rest is over what stands in fresh memory, the dictionary, the files, the entries of the
-- directory, and the fuel for the loops over the list.
module _ (header_junk : ℕ) (malloc_junk junk : ℕ → ℕ) (dict : Dict) (files : FileSystem)
    (directory : List ℕ) (entries : Option (List Entry)) (list_fuel : ℕ) where
  -- `if (curr)`: the request joins without a look at its name and its range.
  pub join_request_opt :
      ℕ → Message → ThreadPoolOptimized → Outcome (Served × List Event × ThreadPoolOptimized)
  join_request_opt q msg pool = do
    curr ← or_fault (pool.requests_list.cell q)
    let joined : FileRequest = record curr { num_connect = curr.num_connect + 1 }
    (es, rest) ←
        child_send malloc_junk junk dict msg.requires_compression files directory joined
          (pool.pipe q)
    ok (
      goes_on,
      es,
      record pool {
        requests_list = record pool.requests_list {
          cell = update pool.requests_list.cell q (some joined);
        };
        pipe = set_pipe pool.pipe q rest;
      },
    )

  pub start_request_opt :
      Turn
      → FileRequest
      → Message
      → ThreadPoolOptimized
      → Outcome (Served × List Event × ThreadPoolOptimized)
  start_request_opt turn req msg pool = do
    let started : FileRequest = record req { num_connect = 0 }
    let p = turn.address
    list ←
        add (record pool.requests_list { cell = update pool.requests_list.cell p (some started) }) p
    (es, pieces) ←
        parent_send malloc_junk junk dict msg.requires_compression files directory started
          turn.before turn.after
    list' ← remove_node list_fuel (turn.others list) p
    ok (goes_on, es, record pool { requests_list = list'; pipe = set_pipe pool.pipe p pieces })

  -- `case 0x6`
  pub handle_request_opt :
      Turn → Message → ThreadPoolOptimized → Outcome (Served × List Event × ThreadPoolOptimized)
  handle_request_opt turn msg pool = do
    req ← dissect_file_request turn.num_connect turn.next msg
    found ← find list_fuel pool.requests_list req.session_id
    elim found [ some q ↦ join_request_opt q msg pool | none ↦ start_request_opt turn req msg pool ]

  -- `switch (msg->main.type)`
  pub handle_message_opt :
      Turn → Message → ThreadPoolOptimized → Outcome (Served × List Event × ThreadPoolOptimized)
  handle_message_opt turn msg pool =
      if msg.type == 0
      then (echo junk dict msg >>= λ r. ok (goes_on, r.0, pool))
      else if msg.type == 2
      then (directory_send junk dict entries msg >>= λ es. ok (goes_on, es, pool))
      else if msg.type == 4
      then (file_size_response junk dict files directory msg >>= λ es. ok (goes_on, es, pool))
      else if msg.type == 6
      then handle_request_opt turn msg pool
      else if msg.type == 8
      then ok (worker_returns, [], record pool { shut = 1 })
      else ok (worker_returns, error_send, pool)

  pub handle_opt :
      Turn → Description → ThreadPoolOptimized → Outcome (Served × List Event × ThreadPoolOptimized)
  handle_opt turn closed pool = ok (connection_closed, [], pool)
  handle_opt turn (bare type) pool = handle_message_opt turn (typed type) pool
  handle_opt turn (full msg) pool = handle_message_opt turn msg pool

  -- The inner `while (1)`, with one unit of fuel for each message.
  pub serve_connection :
      ℕ
      → (ℕ → Turn)
      → Socket
      → ThreadPoolOptimized
      → Outcome (Served × List Event × Socket × ThreadPoolOptimized)
  serve_connection zero turns socket pool = unfinished
  serve_connection (suc fuel) turns socket pool =
      if pool.shut == 1 then ok (connection_closed, [], socket, pool) else (do
        (d, socket') ← get_description header_junk malloc_junk dict socket
        (next, es, pool') ← handle_opt (turns fuel) d pool
        let rest = serve_connection fuel turns socket' pool'
        elim next [
          | goes_on ↦ do
            (next', fs, socket'', pool'') ← rest
            ok (next', es ++ fs, socket'', pool'')
          | stop ↦ ok (stop, es, socket', pool')
        ])
