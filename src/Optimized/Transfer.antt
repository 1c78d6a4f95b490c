-- ===== src/Optimized/Transfer.antt =====
-- `parent_send_optimized` of message_handling_optimized.c, which sends a part of a file over one
-- connection. An allocation does not fail, and `read` gives what it can in one call. Closing the
-- pipe's ends is left out.
pub mod Laws
use multiplexing_server.Base.{
  ℕ, ◌+◌, ◌%◌, ◌^◌, Option, none, some, List, [], ◌∷◌, ◌++◌, Outcome, ok, fault, ◌>>=◌, length,
  take, drop, ltb, ◌==◌, if◌then◌else◌,
}
use multiplexing_server.Codec.Dict.{Dict}
use multiplexing_server.Wire.{le_bytes, bswap}
use multiplexing_server.RequestList.{FileRequest}
use multiplexing_server.Response.{Event, sends, error_send, is_traversal, join_path, FileSystem}
use multiplexing_server.Segments.{Piece, segment_header, read_segment}
use multiplexing_server.Optimized.Handlers.{send_parts}

-- `snprintf` into the 4096 bytes of `path`
abbrev pub bounded_path : List ℕ → List ℕ → List ℕ
bounded_path directory name = take 4095 (join_path directory name)

-- `lseek(fd, offset, SEEK_SET)`: an offset that is negative as an `off_t` is refused and the position
-- stays at the start.
pub seek : ℕ → ℕ
seek offset = if ltb offset (2 ^ 63) then offset else 0

-- One `read` passes on 0x7ffff000 bytes at most.
pub read_limit : ℕ → ℕ
read_limit count = if ltb 0x7ffff000 count then 0x7ffff000 else count

-- The rest is over what the calls of `send` take, what `malloc` and `realloc` leave in
-- fresh memory, and the dictionary.
module _ (accept malloc_junk junk : ℕ → ℕ) (dict : Dict) where
  -- The answer to a client that asks for compression is a fault: `compress` is given a message where it
  -- takes a pointer to one, and follows bytes that are not set.
  pub send_whole : ℕ → List ℕ → Outcome (List Event)
  send_whole compressed file_buffer =
      if compressed == 1 then fault else send_parts accept 0x70 file_buffer

  -- With what is written to the pipe.
  pub parent_send_optimized :
      ℕ → FileSystem → List ℕ → FileRequest → Outcome (List Event × List Piece)
  parent_send_optimized compressed files directory r =
      if is_traversal r.file_name
      then ok (error_send, [])
      else elim (files (bounded_path directory r.file_name)) [
        | none ↦ ok (error_send, [])
        | some file ↦ do
          let position = seek r.offset
          let p : Piece = record { offset = r.offset; length = r.length }
          let at : Piece = record { offset = position; length = read_limit r.length }
          file_buffer ← segment_header malloc_junk junk dict r.session_id p
          segment ← read_segment malloc_junk junk dict file at file_buffer
          if length (take (read_limit r.length) (drop position file)) == r.length
              then (send_whole compressed segment >>= λ events.
                  ok (events, record { offset = bswap 8 r.offset; length = bswap 8 r.length } ∷ []))
              else ok (error_send, [])
      ]
