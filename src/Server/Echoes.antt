-- ===== src/Server/Echoes.antt =====
-- A connection over which a client sends echo messages one behind the other.
use multiplexing_server.Base.{
  ℕ, suc, ◌^◌, ◌<◌, ◌≡◌, ◌≢◌, refl, inl, Option, List, [], ◌∷◌, ◌++◌, map, ok, length, All, arith,
  ==_of_ne,
}
use multiplexing_server.Codec.Dict.{Dict}
use multiplexing_server.Message.{
  full, closed, has_payload, rest_of, decompress_message, needs_decompression,
}
use multiplexing_server.Message.Laws.{
  frame, header_byte, buffer_of, get_description-closed, get_description-frame,
}
use multiplexing_server.Message.Compressed.{contents-buffer_of}
use multiplexing_server.Response.{sends, FileSystem, Entry}
use multiplexing_server.Response.Echo.{echo_plain}
use multiplexing_server.Server.{
  ThreadPool, Turn, continues, closes, handle_message, handle, client_handling,
}

-- The messages of a client, all in one piece.
abbrev pub echo_stream : List (List ℕ) → List ℕ
echo_stream [] = []
echo_stream (p ∷ ps) = frame (header_byte 0 0 0) p ++ echo_stream ps

module _ (header_junk : ℕ) (malloc_junk junk : ℕ → ℕ) (dict : Dict) (files : FileSystem)
    (directory : List ℕ) (entries : Option (List Entry)) (list_fuel : ℕ) where
  echo_message :
      (turn : Turn) (pool : ThreadPool) (p : List ℕ)
      → handle header_junk malloc_junk junk dict files directory entries list_fuel turn
          (full (record {
            type = 0;
            compression = 0;
            requires_compression = 0;
            length = length p;
            buffer = buffer_of p;
          }))
          pool
        ≡ ok (continues, sends (frame 0x10 p) ∷ [], pool)
  unfolding handle handle_message has_payload
  echo_message turn pool p =
      rw
        (echo_plain junk dict
          (record {
            type = 0;
            compression = 0;
            requires_compression = 0;
            length = length p;
            buffer = buffer_of p;
          })
          (inl refl))
        (rw (contents-buffer_of p) refl)

  handle_closed :
      (turn : Turn) (pool : ThreadPool)
      → handle header_junk malloc_junk junk dict files directory entries list_fuel turn closed pool
        ≡ ok (closes, [], pool)
  unfolding handle
  handle_closed turn pool = refl

  -- Unless the server is shut down, however many echo messages shorter than 2^64 arrive that ask
  -- for no compression, with no gap between them, each is answered in its turn with one message
  -- that carries its payload, and then the closed connection ends the loop; the thread pool is as
  -- it was. One unit of fuel for each message and one more is enough.
  pub client_handling_echoes :
      (turns : ℕ → Turn) (pool : ThreadPool) (payloads : List (List ℕ))
      → pool.shut ≢ 1
      → All (λ p. length p < 2 ^ 64) payloads
      → client_handling header_junk malloc_junk junk dict files directory entries list_fuel
          (suc (length payloads))
          turns
          (rest_of (echo_stream payloads) [])
          pool
        ≡ ok (closes, map (λ p. sends (frame 0x10 p)) payloads, [], pool)
  unfolding client_handling has_payload decompress_message needs_decompression
  client_handling_echoes turns pool [] hs h = rw (==_of_ne pool.shut 1 hs) (
      rw (get_description-closed header_junk malloc_junk dict)
        (rw (handle_closed (turns 0) pool) refl))
  client_handling_echoes turns pool (p ∷ ps) hs h =
      let arrives =
        get_description-frame header_junk malloc_junk dict 0 0 0 p (echo_stream ps) [] refl
          (omega arith) (omega arith) h.0 in
      let rest = client_handling_echoes turns pool ps hs h.1 in
      rw (==_of_ne pool.shut 1 hs)
        (rw (arrives) (rw (echo_message (turns (suc (length ps))) pool p) (rw rest refl)))
