-- ===== src/Optimized/Standalone/Tests.antt =====
-- A byte of no known type.
use multiplexing_server.Base.{◌≡◌, refl, none, [], ◌∷◌, ok, arith}
use multiplexing_server.Codec.Tests.{plain}
use multiplexing_server.Message.{rest_of, has_payload}
use multiplexing_server.Response.{error_send}
use multiplexing_server.RequestList.Tests.{three}
use multiplexing_server.Segments.Tests.{files}
use multiplexing_server.Server.{Turn}
use multiplexing_server.CircularQueue.Tests.{empty}
use multiplexing_server.Optimized.Dispatch.{ThreadPoolOptimized}
use multiplexing_server.Optimized.Standalone.{worker_returns, serve_connection}
use multiplexing_server.Optimized.Standalone.Ends.{serve_connection_unknown}

abbrev turn : Turn
turn = record {
  address = 4;
  num_connect = 9;
  next = none;
  before = 0;
  after = 0;
  others = λ list. list;
}

abbrev pool : ThreadPoolOptimized
pool = record { shut = 0; queue = empty; requests_list = three; pipe = λ _. [] }

serve_connection_unknown_run :
    serve_connection 9
      (λ _. 170)
      (λ _. 255)
      plain
      files
      []
      none
      5
      1
      (λ _. turn)
      (rest_of (0x30 ∷ 1 ∷ []) [])
      pool
    ≡ ok (worker_returns, error_send, rest_of (1 ∷ []) [], pool)
serve_connection_unknown_run =
    serve_connection_unknown 9 (λ _. 170) (λ _. 255) plain files [] none 5 0 (λ _. turn) 0x30
      (1 ∷ []) [] pool (omega arith) (unfold has_payload in refl) (omega arith)
