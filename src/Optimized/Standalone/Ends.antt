-- ===== src/Optimized/Standalone/Ends.antt =====
-- How a connection of server_optimized.c ends, against tp.c.
use multiplexing_server.Base.{
  ℕ, suc, ◌/◌, ◌%◌, ◌^◌, ◌≡◌, ◌≢◌, refl, false, Option, List, ◌∷◌, ok, ==_of_ne, arith,
}
use multiplexing_server.Codec.Dict.{Dict}
use multiplexing_server.Message.{Socket, rest_of, has_payload}
use multiplexing_server.Message.Laws.{get_description-bare}
use multiplexing_server.Response.{error_send, FileSystem, Entry}
use multiplexing_server.Server.{Turn}
use multiplexing_server.Optimized.Dispatch.{ThreadPoolOptimized}
use multiplexing_server.Optimized.Standalone.{
  worker_returns, handle_message_opt, handle_opt, serve_connection,
}

not_known :
    (type : ℕ) → has_payload type ≡ false → (type ≢ 0) × (type ≢ 2) × (type ≢ 4) × (type ≢ 6)
unfolding has_payload
not_known type h = (ground arith, ground arith, ground arith, ground arith)

module _ (header_junk : ℕ) (malloc_junk junk : ℕ → ℕ) (dict : Dict) (files : FileSystem)
    (directory : List ℕ) (entries : Option (List Entry)) (list_fuel : ℕ) where
  -- Unless the server is shut down, a first byte whose type is none that the server knows: the client
  -- gets an error message, nothing behind that byte is read, the thread pool is as it was, and the
  -- worker returns, so that no connection is served by it any more.
  pub serve_connection_unknown :
      (fuel : ℕ) (turns : ℕ → Turn) (b : ℕ) (rest : List ℕ) (socket : Socket)
      (pool : ThreadPoolOptimized)
      → pool.shut ≢ 1
      → has_payload (b / 2 ^ 4 % 16) ≡ false
      → b / 2 ^ 4 % 16 ≢ 8
      → serve_connection header_junk malloc_junk junk dict files directory entries list_fuel
          (suc fuel)
          turns
          (rest_of (b ∷ rest) socket)
          pool
        ≡ ok (worker_returns, error_send, rest_of rest socket, pool)
  unfolding serve_connection handle_opt handle_message_opt
  serve_connection_unknown fuel turns b rest socket pool hs hp h8 =
      let type = b / 2 ^ 4 % 16 in
      let n = not_known type hp in
      rw (==_of_ne pool.shut 1 hs) (
        rw (get_description-bare header_junk malloc_junk dict b rest socket hp) (
          rw
            (
              ==_of_ne type 0 n.0,
              ==_of_ne type 2 n.1,
              ==_of_ne type 4 n.2,
              ==_of_ne type 6 n.3,
              ==_of_ne type 8 h8,
            )
            refl))
