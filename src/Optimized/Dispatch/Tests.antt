-- ===== src/Optimized/Dispatch/Tests.antt =====
-- Two echoes that arrive in pieces, a shutdown with two waiting connections, and the theorems of the
-- optimised server at them.
use multiplexing_server.Base.{◌≡◌, refl, none, [], ◌∷◌, ok, arith}
use multiplexing_server.Codec.Tests.{plain}
use multiplexing_server.Wire.{be_bytes}
use multiplexing_server.Message.{bytes, Socket}
use multiplexing_server.RequestList.Tests.{three}
use multiplexing_server.Segments.Tests.{files}
use multiplexing_server.CircularQueue.{CircularQueue, cq_enqueue}
use multiplexing_server.CircularQueue.Tests.{empty, empty-Holds}
use multiplexing_server.CircularQueue.Refine.{Holds, cq_enqueue_refines}
use multiplexing_server.Fifo
use multiplexing_server.Server.{Turn, shuts_down}
use multiplexing_server.Server.Echoes.{echo_stream}
use multiplexing_server.Optimized.Reading.Stream.{stream}
use multiplexing_server.Optimized.Dispatch.{ThreadPoolOptimized, client_handling_optimized}
use multiplexing_server.Optimized.Dispatch.Echoes.{EchoesAnswered, client_handling_optimized_echoes}
use multiplexing_server.Optimized.Dispatch.Stops.{client_handling_optimized_shutdown}

abbrev turn : Turn
turn = record {
  address = 4;
  num_connect = 9;
  next = none;
  before = 0;
  after = 0;
  others = λ list. list;
}

-- Two connections wait.
abbrev two_waiting : CircularQueue
two_waiting = (cq_enqueue (cq_enqueue empty 7).1 8).1

two_waiting-Holds : Holds two_waiting (7 ∷ 8 ∷ [])
unfolding Fifo.push
two_waiting-Holds =
    let (e, v) = cq_enqueue_refines empty [] 7 empty-Holds in
    let (f, w) = cq_enqueue_refines (cq_enqueue empty 7).1 (7 ∷ []) 8 v in w

abbrev pool : ThreadPoolOptimized
pool = record { shut = 0; queue = two_waiting; requests_list = three; pipe = λ _. [] }

-- The payloads 1 2 and none, cut inside of a length and behind a payload.
abbrev pieces : Socket
pieces =
    bytes 0 (0 ∷ 0 ∷ 0 ∷ [])
    ∷ bytes 0 (0 ∷ 0 ∷ 0 ∷ 2 ∷ 1 ∷ [])
    ∷ bytes 2 (0 ∷ 0 ∷ 0 ∷ 0 ∷ 0 ∷ [])
    ∷ bytes 0 (0 ∷ 0 ∷ 0 ∷ [])
    ∷ []

pieces_stream : stream pieces ≡ echo_stream ((1 ∷ 2 ∷ []) ∷ [] ∷ [])
unfolding be_bytes
pieces_stream = refl

client_handling_optimized_echoes_example :
    EchoesAnswered
      (λ _. 2)
      (λ _. 170)
      (λ _. 255)
      plain
      files
      []
      none
      5
      (λ _. turn)
      pool
      ((1 ∷ 2 ∷ []) ∷ [] ∷ [])
      pieces
client_handling_optimized_echoes_example =
    client_handling_optimized_echoes (λ _. 2) (λ _. 170) (λ _. 255) plain files [] none 5
      (λ _. turn) pool ((1 ∷ 2 ∷ []) ∷ [] ∷ []) pieces (λ call e. cc) (omega arith)
      (omega arith, (omega arith, tt)) tt pieces_stream

client_handling_optimized_shutdown_run :
    (socket' : Socket) × (q : CircularQueue) × Holds q []
    × (stream socket' ≡ 1 ∷ [])
    × (client_handling_optimized
          (λ _. 2)
          (λ _. 170)
          (λ _. 255)
          plain
          files
          []
          none
          1025
          1
          (λ _. turn)
          (bytes 0x80 (1 ∷ []) ∷ [])
          pool
        ≡ ok (shuts_down (7 ∷ 8 ∷ []), [], socket', record pool { shut = 1; queue = q }))
client_handling_optimized_shutdown_run =
    client_handling_optimized_shutdown (λ _. 2) (λ _. 170) (λ _. 255) plain files [] none 1025 0
      (λ _. turn) 0x80 (1 ∷ []) (bytes 0x80 (1 ∷ []) ∷ []) pool (7 ∷ 8 ∷ []) (omega arith) refl tt
      refl two_waiting-Holds (omega arith)
