-- ===== src/Server.antt =====
-- tp.c: `client_handling`, which answers the messages of one connection, and what of the thread pool it
-- changes. What the other threads do to the requests and to `num_connect` while a transfer is under way
-- is an argument, `Turn`; no other thread shuts the server down.
pub mod Echoes
pub mod Stops
pub mod Sessions
mod Tests
use multiplexing_server.Base.{
  ℕ, zero, suc, ◌+◌, ◌-◌, Bool, true, false, ◌&&◌, ◌||◌, not, Option, none, some, List, [], ◌∷◌,
  ◌++◌, Outcome, ok, fault, unfinished, ◌>>=◌, or_fault, ◌==◌, if◌then◌else◌,
}
use multiplexing_server.Links.{update}
use multiplexing_server.Codec.Dict.{Dict}
use multiplexing_server.Message.{
  Message, Description, closed, bare, full, Socket, has_payload, get_description,
}
use multiplexing_server.RequestList.{FileRequest, RequestList, add, find, remove_node}
use multiplexing_server.WorkQueue.{WorkQueue, dequeue}
use multiplexing_server.Response.{
  Event, error_send, FileSystem, Entry, echo, file_size_response, directory_send,
}
use multiplexing_server.Segments.{Piece, dissect_file_request, child_send, parent_send}

-- What `client_handling` reads and writes of `struct thread_pool`. `pipe` has the pipe of the request
-- at an address.
pub record ThreadPool : Type 0 where
  pub shut : ℕ
  pub queue : WorkQueue
  pub requests_list : RequestList
  pub pipe : ℕ → List Piece

-- What one round of the loop finds around it: the address that `malloc` returns for a request and what
-- stands there, the values of `num_connect` that `parent_send` reads, and what the other threads do to
-- the list between `add` and `remove_node`.
pub record Turn : Type 0 where
  pub address : ℕ
  pub num_connect : ℕ
  pub next : Option ℕ
  pub before : ℕ
  pub after : ℕ
  pub others : RequestList → RequestList

-- What comes of a message: the next one is read, or the function returns, with the connection closed or
-- left open, or the server shuts down, with these waiting connections closed.
pub data Next : Type 0 where
  continues : Next
  closes : Next
  leaves_open : Next
  shuts_down : List ℕ → Next

-- `strcmp(a, b) == 0`
pub same_name : List ℕ → List ℕ → Bool
same_name [] [] = true
same_name (a ∷ as') (b ∷ bs) = (a == b) && same_name as' bs
same_name _ _ = false

-- The request names another part of another file than the one with the same session.
pub differs : FileRequest → FileRequest → Bool
differs req curr =
    not (same_name req.file_name curr.file_name)
    || not (req.length == curr.length)
    || not (req.offset == curr.offset)

pub set_pipe : (ℕ → List Piece) → ℕ → List Piece → ℕ → List Piece
set_pipe pipe p pieces q = if q == p then pieces else pipe q

-- `while ((f = dequeue(input)) != NULL) close(*f);`
pub drain : ℕ → WorkQueue → Outcome (List ℕ × WorkQueue)
drain zero q = unfinished
drain (suc fuel) q = do
  (o, q') ← dequeue q
  elim o [ none ↦ ok ([], q') | some f ↦ do (fs, q'') ← drain fuel q'; ok (f ∷ fs, q'') ]

-- The rest is over what stands in fresh memory, the dictionary, the files, the entries of the
-- directory, and the fuel for the loops over the list and the queue.
module _ (header_junk : ℕ) (malloc_junk junk : ℕ → ℕ) (dict : Dict) (files : FileSystem)
    (directory : List ℕ) (entries : Option (List Entry)) (list_fuel : ℕ) where
  -- A request whose session is in the list.
  pub join_request :
      FileRequest → ℕ → Message → ThreadPool → Outcome (Next × List Event × ThreadPool)
  join_request req q msg pool = do
    curr ← or_fault (pool.requests_list.cell q)
    if differs req curr then ok (leaves_open, error_send, pool) else (do
      let joined : FileRequest = record curr { num_connect = curr.num_connect + 1 }
      (es, rest) ←
          child_send malloc_junk junk dict msg.requires_compression files directory joined
            (pool.pipe q)
      ok (
        closes,
        es,
        record pool {
          requests_list = record pool.requests_list {
            cell = update pool.requests_list.cell q (some joined);
          };
          pipe = set_pipe pool.pipe q rest;
        },
      ))

  -- A request with a session of its own.
  pub start_request :
      Turn → FileRequest → Message → ThreadPool → Outcome (Next × List Event × ThreadPool)
  start_request turn req msg pool = do
    let started : FileRequest = record req { num_connect = 0 }
    let p = turn.address
    list ←
        add (record pool.requests_list { cell = update pool.requests_list.cell p (some started) }) p
    (es, pieces) ←
        parent_send malloc_junk junk dict msg.requires_compression files directory started
          turn.before turn.after
    list' ← remove_node list_fuel (turn.others list) p
    ok (continues, es, record pool { requests_list = list'; pipe = set_pipe pool.pipe p pieces })

  -- `if (msg->main.type == 0x6) ...`
  pub handle_request : Turn → Message → ThreadPool → Outcome (Next × List Event × ThreadPool)
  handle_request turn msg pool = do
    req ← dissect_file_request turn.num_connect turn.next msg
    found ← find list_fuel pool.requests_list req.session_id
    elim found [ some q ↦ join_request req q msg pool | none ↦ start_request turn req msg pool ]

  pub shut_down : ThreadPool → Outcome (Next × List Event × ThreadPool)
  shut_down pool = do
    (fs, q) ← drain list_fuel pool.queue
    ok (shuts_down fs, [], record pool { shut = 1; queue = q })

  -- The tests of the type, of which one at most holds.
  pub handle_message : Turn → Message → ThreadPool → Outcome (Next × List Event × ThreadPool)
  handle_message turn msg pool =
      if not (has_payload msg.type) && not (msg.type == 8)
      then ok (closes, error_send, pool)
      else if msg.type == 0
      then (echo junk dict msg >>= λ r. ok (continues, r.0, pool))
      else if msg.type == 2
      then (directory_send junk dict entries msg >>= λ es. ok (continues, es, pool))
      else if msg.type == 4
      then (file_size_response junk dict files directory msg >>= λ es. ok (continues, es, pool))
      else if msg.type == 6
      then handle_request turn msg pool
      else shut_down pool

  -- Of a message without a payload the type alone is set, and the type alone is read.
  abbrev pub message_of : ℕ → Message
  message_of type = record {
    type = type;
    compression = 0;
    requires_compression = 0;
    length = 0;
    buffer = none;
  }

  pub handle : Turn → Description → ThreadPool → Outcome (Next × List Event × ThreadPool)
  handle turn closed pool = ok (closes, [], pool)
  handle turn (bare type) pool = handle_message turn (message_of type) pool
  handle turn (full msg) pool = handle_message turn msg pool

  -- With the socket as it is left, and one unit of fuel for each message.
  pub client_handling :
      ℕ → (ℕ → Turn) → Socket → ThreadPool → Outcome (Next × List Event × Socket × ThreadPool)
  client_handling zero turns socket pool = unfinished
  client_handling (suc fuel) turns socket pool =
      if pool.shut == 1 then ok (leaves_open, [], socket, pool) else (do
        (d, socket') ← get_description header_junk malloc_junk dict socket
        (next, es, pool') ← handle (turns fuel) d pool
        let rest = client_handling fuel turns socket' pool'
        elim next [
          | continues ↦ do
            (next', fs, socket'', pool'') ← rest
            ok (next', es ++ fs, socket'', pool'')
          | stop ↦ ok (stop, es, socket', pool')
        ])
