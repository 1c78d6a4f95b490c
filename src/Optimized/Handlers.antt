-- ===== src/Optimized/Handlers.antt =====
-- `send_all` and the handlers of message_handling_optimized.c that answer from one message:
-- `echo_optimized`, `file_size_response_optimized`, `directory_send_optimized`. An allocation does not
-- fail, and sizes stay below 2^64. `error_send` passes on all of its message.
pub mod Sending
pub mod Answers
use multiplexing_server.Base.{
  ℕ, zero, suc, ◌+◌, ◌*◌, ◌&&◌, true, false, Option, none, some, List, [], ◌∷◌, ◌++◌, Outcome, ok,
  fault, unfinished, ◌>>=◌, length, take, drop, leb, ltb, ◌==◌, if◌then◌else◌,
}
use multiplexing_server.Codec.Dict.{Dict}
use multiplexing_server.Codec.Compress.{compress}
use multiplexing_server.Wire.{le_bytes, bswap}
use multiplexing_server.Message.{Message, contents}
use multiplexing_server.Response.{
  Event, sends, error_send, c_string, is_traversal, join_path, FileSystem, Entry, container,
}

-- `while (total < len)`, with `left` for what is not sent yet. The call number `call` of `send` takes
-- `accept call` bytes at most; none is a result of zero or less.
pub send_loop : (ℕ → ℕ) → ℕ → ℕ → List ℕ → Outcome (List Event)
send_loop accept zero call left = unfinished
send_loop accept (suc fuel) call [] = ok []
send_loop accept (suc fuel) call (b ∷ left) = if accept call == 0 then ok [] else (do
  rest ← send_loop accept fuel (call + 1) (drop (accept call) (b ∷ left))
  ok (sends (take (accept call) (b ∷ left)) ∷ rest))

-- Each call sends a byte at least or ends the loop.
unfoldable pub send_all : (ℕ → ℕ) → List ℕ → Outcome (List Event)
send_all accept buf = send_loop accept (suc (length buf)) 0 buf

-- A call of `send` alone: what it does not take is lost.
pub send_once : ℕ → List ℕ → List Event
send_once taken [] = []
send_once taken (b ∷ bs) = if taken == 0 then [] else sends (take taken (b ∷ bs)) ∷ []

-- The type, the length and the payload of a message in three parts. The calls of `send` are counted
-- over the three.
pub send_parts : (ℕ → ℕ) → ℕ → List ℕ → Outcome (List Event)
send_parts accept header buf = do
  events ← send_all (λ call. accept (call + 2)) buf
  ok (
      send_once (accept 0) (header ∷ [])
      ++ (send_once (accept 1) (le_bytes 8 (bswap 8 (length buf))) ++ events))

-- The capacity of `buf`, grown if it is less than what is needed.
pub grow : ℕ → ℕ → ℕ
grow capacity needed = if ltb capacity needed then needed * 2 else capacity

-- One entry of the directory: the buffer and its capacity behind it. A copy past the end is a fault.
pub push_name : Entry → List ℕ × ℕ → Outcome (List ℕ × ℕ)
push_name e (buf, capacity) =
    if e.is_regular
    then (let needed = length buf + length e.name + 1 in
        let capacity' = grow capacity needed in
        if leb needed capacity' then ok (buf ++ (e.name ++ 0 ∷ []), capacity') else fault)
    else ok (buf, capacity)

-- `while ((de = readdir(dir)) != NULL)`
pub push_names : List Entry → List ℕ × ℕ → Outcome (List ℕ × ℕ)
push_names [] b = ok b
push_names (e ∷ es) b = push_name e b >>= push_names es

-- A single zero byte if there is no name.
pub finish_buffer : List ℕ × ℕ → Outcome (List ℕ)
finish_buffer ([], capacity) = if leb 1 capacity then ok (0 ∷ []) else fault
finish_buffer (b ∷ buf, capacity) = ok (b ∷ buf)

-- The buffer that is sent.
unfoldable pub listing_optimized : List Entry → Outcome (List ℕ)
listing_optimized entries = push_names entries ([], 4096) >>= finish_buffer

-- The rest is over what the calls of `send` take, what `realloc` leaves in fresh memory,
-- and the dictionary.
module _ (accept junk : ℕ → ℕ) (dict : Dict) where
  -- `full` has room for the payload as it came; a copy of more bytes into it is a fault. The second
  -- part of the result is the payload that the message is left with.
  pub echo_optimized : Message → Outcome (List Event × List ℕ)
  echo_optimized input =
      let before = contents input.buffer in
      (do
        after ←
            (if (input.requires_compression == 1) && (input.compression == 0)
              then compress junk dict before
              else ok before)
        let header = if input.requires_compression == 1 then 0x18 else 0x10
        if leb (length after) (length before)
            then (send_all accept (container header after) >>= λ events. ok (events, after))
            else fault)

  -- `files` are those that `stat` finds. `compress` is given a message where it takes a pointer to one,
  -- so what it follows is the first bytes of `msg`, which are not set: a fault.
  pub file_size_response_optimized : FileSystem → List ℕ → Message → Outcome (List Event)
  file_size_response_optimized files directory input = do
    filename ← c_string (contents input.buffer)
    if is_traversal filename
        then ok error_send
        else if ltb 4096 (length directory + length filename + 2)
        then ok error_send
        else elim (files (join_path directory filename)) [
          | none ↦ ok error_send
          | some file ↦
              if input.requires_compression == 1
              then fault
              else send_all accept (container 0x50 (le_bytes 8 (bswap 8 (length file))))
        ]

  -- `none` is a directory that cannot be opened. `compress` is called as above.
  pub directory_send_optimized : Option (List Entry) → Message → Outcome (List Event)
  directory_send_optimized none input = ok error_send
  directory_send_optimized (some entries) input = do
    buf ← listing_optimized entries
    if input.requires_compression == 1 then fault else send_parts accept 0x30 buf
