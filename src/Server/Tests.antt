-- ===== src/Server/Tests.antt =====
-- A thread pool with waiting connections and sessions, and the theorems of the server at it.
use multiplexing_server.Base.{
  ℕ, ◌≡◌, inr, refl, none, some, List, [], ◌∷◌, map, ok, fault, exited, unfinished, arith,
}
use multiplexing_server.Links.{update, update_self, ChainTo-update}
use multiplexing_server.Codec.Tests.{plain, plain-IsDict, plain-IsPrefixFree}
use multiplexing_server.Message.{Message, rest_of, has_payload}
use multiplexing_server.Message.Laws.{frame}
use multiplexing_server.RequestList.{FileRequest, RequestList, add}
use multiplexing_server.RequestList.Chain.{Holds}
use multiplexing_server.RequestList.Add.{add-Keeps}
use multiplexing_server.RequestList.Tests.{three, three-Holds}
use multiplexing_server.WorkQueue.{WorkQueue}
use multiplexing_server.WorkQueue.Refine
use multiplexing_server.WorkQueue.Tests.{two, two-Holds}
use multiplexing_server.Response.{sends, error_send}
use multiplexing_server.Segments.Tests.{file, files, request, fits, plain_name}
use multiplexing_server.Segments.Transfer.{Transfers, transfer}
use multiplexing_server.Server.{
  ThreadPool, Turn, continues, closes, shuts_down, set_pipe, start_request, client_handling,
}
use multiplexing_server.Server.Echoes.{echo_stream, client_handling_echoes}
use multiplexing_server.Server.Stops.{client_handling_unknown, client_handling_shutdown}
use multiplexing_server.Server.Sessions.{Session, start_request-removes, start_request-first}

abbrev pool : RequestList → ThreadPool
pool requests = record { shut = 0; queue = two; requests_list = requests; pipe = λ _. [] }

abbrev turn : (RequestList → RequestList) → Turn
turn others = record {
  address = 4;
  num_connect = 9;
  next = none;
  before = 0;
  after = 0;
  others = others;
}

abbrev no_change : RequestList → RequestList
no_change list = list

abbrev message : Message
message = record { type = 6; compression = 0; requires_compression = 0; length = 0; buffer = none }

client_handling_echoes_example :
    client_handling 9
      (λ _. 170)
      (λ _. 255)
      plain
      files
      []
      none
      5
      3
      (λ _. turn no_change)
      (rest_of (echo_stream ((1 ∷ 2 ∷ []) ∷ [] ∷ [])) [])
      (pool three)
    ≡ ok (closes, map (λ p. sends (frame 0x10 p)) ((1 ∷ 2 ∷ []) ∷ [] ∷ []), [], pool three)
client_handling_echoes_example =
    client_handling_echoes 9 (λ _. 170) (λ _. 255) plain files [] none 5 (λ _. turn no_change)
      (pool three) ((1 ∷ 2 ∷ []) ∷ [] ∷ []) (omega arith) (omega arith, (omega arith, tt))

client_handling_unknown_run :
    client_handling 9
      (λ _. 170)
      (λ _. 255)
      plain
      files
      []
      none
      5
      1
      (λ _. turn no_change)
      (rest_of (0x10 ∷ 1 ∷ []) [])
      (pool three)
    ≡ ok (closes, error_send, rest_of (1 ∷ []) [], pool three)
client_handling_unknown_run =
    client_handling_unknown 9 (λ _. 170) (λ _. 255) plain files [] none 5 0 (λ _. turn no_change)
      0x10 (1 ∷ []) [] (pool three) (omega arith) (unfold has_payload in refl) (omega arith)

client_handling_shutdown_example :
    (q : WorkQueue) × (qs : List ℕ) × Refine.Holds q qs []
    × (client_handling 9
          (λ _. 170)
          (λ _. 255)
          plain
          files
          []
          none
          5
          1
          (λ _. turn no_change)
          (rest_of (0x80 ∷ 1 ∷ []) [])
          (pool three)
        ≡ ok (
          shuts_down (7 ∷ 8 ∷ []),
          [],
          rest_of (1 ∷ []) [],
          record (pool three) { shut = 1; queue = q },
        ))
client_handling_shutdown_example =
    client_handling_shutdown 9 (λ _. 170) (λ _. 255) plain files [] none 5 0 (λ _. turn no_change)
      0x80 (1 ∷ []) [] (pool three) (1 ∷ 2 ∷ []) (7 ∷ 8 ∷ []) (omega arith) refl two-Holds
      (omega arith)

-- The transfer of eight bytes of a file, over one connection.
sent :
    Transfers
      (λ _. 170)
      (λ _. 255)
      plain
      (λ _. omega arith)
      plain-IsDict
      plain-IsPrefixFree
      0
      []
      files
      []
      file
      (request 1 8)
sent =
    transfer (λ _. 170) (λ _. 255) plain (λ _. omega arith) plain-IsDict plain-IsPrefixFree 0 []
      files [] file (request 1 8) plain_name refl (omega arith) (omega arith) fits (omega arith)

fourth :
    Session 9
      (λ _. 170)
      (λ _. 255)
      plain
      files
      []
      none
      5
      (turn no_change)
      (request 1 8)
      message
      (pool three)
      (sent.event ∷ [])
      sent.pieces
      (1 ∷ 2 ∷ 3 ∷ [])
      (1 ∷ 2 ∷ 3 ∷ 4 ∷ [])
fourth = record {
  holds = three-Holds;
  fresh = (omega arith, (omega arith, (omega arith, tt)));
  null_next = refl;
  sends_all = sent.parent_answers;
  meanwhile = λ list h. h;
}

start_request-removes_example :
    (list : RequestList) × Holds list (1 ∷ 2 ∷ 3 ∷ [])
    × (start_request 9
          (λ _. 170)
          (λ _. 255)
          plain
          files
          []
          none
          5
          (turn no_change)
          (request 1 8)
          message
          (pool three)
        ≡ ok (
          continues,
          sent.event ∷ [],
          record (pool three) { requests_list = list; pipe = set_pipe (λ _. []) 4 sent.pieces },
        ))
start_request-removes_example =
    start_request-removes 9 (λ _. 170) (λ _. 255) plain files [] none 5 (turn no_change)
      (request 1 8) message (pool three) (sent.event ∷ []) sent.pieces (1 ∷ 2 ∷ 3 ∷ [])
      (1 ∷ 2 ∷ 3 ∷ []) [] (omega arith) (inr refl) fourth

-- Another connection starts a session at address 5.
abbrev with_fifth : RequestList → RequestList
with_fifth list = record list { cell = update list.cell 5 (some (request 2 3)) }

add_fifth : RequestList → RequestList
add_fifth list = elim (add (with_fifth list) 5) [
  | ok list' ↦ list'
  | fault ↦ list
  | exited ↦ list
  | unfinished ↦ list
]

add_fifth-Holds : (list : RequestList) → Holds list (4 ∷ []) → Holds (add_fifth list) (4 ∷ 5 ∷ [])
unfolding add_fifth
add_fifth-Holds list h =
    let w =
      add-Keeps (with_fifth list) 5 (request 2 3) (4 ∷ [])
        (record {
          chain =
              ChainTo-update (λ (r : FileRequest). r.next) list.cell 5 (some (request 2 3))
                list.head (4 ∷ []) none (omega arith, tt) h.chain;
          tail_last = h.tail_last;
          distinct = h.distinct;
        })
        (omega arith, tt) (update_self list.cell 5 (some (request 2 3))) refl in
    rw (w.returns, add_fifth) w.holds

abbrev empty : RequestList
empty = record { cell = λ _. none; head = none; tail = none }

first :
    Session 9
      (λ _. 170)
      (λ _. 255)
      plain
      files
      []
      none
      5
      (turn add_fifth)
      (request 1 8)
      message
      (pool empty)
      (sent.event ∷ [])
      sent.pieces
      []
      (4 ∷ 5 ∷ [])
first = record {
  holds = record { chain = refl; tail_last = refl; distinct = tt };
  fresh = tt;
  null_next = refl;
  sends_all = sent.parent_answers;
  meanwhile = add_fifth-Holds;
}

start_request-first_run :
    start_request 9
      (λ _. 170)
      (λ _. 255)
      plain
      files
      []
      none
      5
      (turn add_fifth)
      (request 1 8)
      message
      (pool empty)
    ≡ fault
start_request-first_run =
    start_request-first 9 (λ _. 170) (λ _. 255) plain files [] none 5 (turn add_fifth) (request 1 8)
      message (pool empty) (sent.event ∷ []) sent.pieces [] 5 [] (omega arith) first
