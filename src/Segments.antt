-- ===== src/Segments.antt =====
-- The transfer of a part of a file in message_handling.c, over one connection or several:
-- `dissect_file_request`, `child_send` and `parent_send`. The pipe of a request is the sequence of what
-- was written to it, 16 bytes at a time, and not read yet; reads and writes of 16 bytes are atomic.
pub mod Request
pub mod Plan
pub mod Send
pub mod Transfer
pub mod Failures
pub mod Confined
pub mod Tests
use multiplexing_server.Base.{
  ℕ, zero, suc, ◌+◌, ◌-◌, ◌/◌, ◌%◌, ◌^◌, Bool, true, false, ◌&&◌, ◌||◌, Option, none, some, List,
  [], ◌∷◌, ◌++◌, Outcome, ok, fault, unfinished, ◌>>=◌, length, take, drop, leb, ltb, ◌==◌,
  if◌then◌else◌,
}
use multiplexing_server.Codec.Dict.{Dict}
use multiplexing_server.Codec.Compress.{compress}
use multiplexing_server.Wire.{le_bytes, of_le, bswap}
use multiplexing_server.Message.{Message, contents, malloc}
use multiplexing_server.RequestList.{FileRequest}
use multiplexing_server.Response.{
  Event, sends, error_send, c_string, is_traversal, join_path, FileSystem, container,
}

-- `memcpy(&field, buffer + i, n)`: a read past the buffer is a fault.
pub bytes_at : ℕ → ℕ → List ℕ → Outcome (List ℕ)
bytes_at i n buffer = if leb (i + n) (length buffer) then ok (take n (drop i buffer)) else fault

-- `num_connect` and `next` are not set here; the arguments are what stands there.
pub dissect_file_request : ℕ → Option ℕ → Message → Outcome FileRequest
dissect_file_request num_connect next input =
    let buffer = contents input.buffer in
    (do
      session_id ← bytes_at 0 4 buffer
      offset ← bytes_at 4 8 buffer
      len ← bytes_at 12 8 buffer
      file_name ← c_string (drop 20 buffer)
      ok (record {
        session_id = bswap 4 (of_le session_id);
        offset = bswap 8 (of_le offset);
        length = bswap 8 (of_le len);
        file_name = file_name;
        num_connect = num_connect;
        next = next;
      }))

-- `o_l`: what one connection is to send.
pub record Piece : Type 0 where
  pub offset : ℕ
  pub length : ℕ

-- A loop that writes `count` pieces of one length, and `current_offset` behind it.
pub write_pieces : ℕ → ℕ → ℕ → List Piece × ℕ
write_pieces zero len current_offset = ([], current_offset)
write_pieces (suc count) len current_offset =
    let (rest, last) = write_pieces count len ((current_offset + len) % 2 ^ 64) in
    (record { offset = current_offset; length = len } ∷ rest, last)

-- The pieces written to the pipe and the piece that is left for the parent. `num_connect` is read
-- without its lock: `before` is what the division sees, `after` what the loops see.
pub split_range : ℕ → ℕ → ℕ → ℕ → List Piece × Piece
split_range before after offset size =
    let division = size / (before + 1) in
    if ltb 0 after
    then (let extra = size % (after + 1) in
        let (long, middle) = write_pieces extra ((division + 1) % 2 ^ 64) offset in
        let (short, last) = write_pieces (after - extra) division middle in
        (long ++ short, record { offset = last; length = division }))
    else ([], record { offset = offset; length = division })

-- `offset > st_size || offset + length > st_size`, in 64 bits
pub out_of_range : FileRequest → ℕ → Bool
out_of_range r st_size = ltb st_size r.offset || ltb st_size ((r.offset + r.length) % 2 ^ 64)

-- The rest is over what `malloc` and `realloc` leave in fresh memory, and the dictionary.
module _ (malloc_junk junk : ℕ → ℕ) (dict : Dict) where
  -- `malloc(20 + length)` and the three fields that are copied to its first 20 bytes. A copy past the
  -- end is a fault.
  pub segment_header : ℕ → Piece → Outcome (List ℕ)
  segment_header session_id p =
      let size = (20 + p.length) % 2 ^ 64 in
      if leb 20 size
      then ok (
          le_bytes 4 (bswap 4 session_id)
          ++ (le_bytes 8 (bswap 8 p.offset)
              ++ (le_bytes 8 (bswap 8 p.length) ++ malloc malloc_junk (size - 20) 0)))
      else fault

  -- `lseek` to the offset and `read` to `buffer + 20`: fewer bytes than asked for at the end of the
  -- file.
  unfoldable pub read_segment : List ℕ → Piece → List ℕ → Outcome (List ℕ)
  read_segment file p buffer =
      let data' = take p.length (drop p.offset file) in
      if leb (20 + length data') (length buffer)
      then ok (take 20 buffer ++ (data' ++ drop (20 + length data') buffer))
      else fault

  -- The message made of a segment.
  pub send_segment : ℕ → List ℕ → Outcome Event
  send_segment compressed buffer =
      if compressed == 1
      then (compress junk dict buffer >>= λ result. ok (sends (container 0x78 result)))
      else ok (sends (container 0x70 buffer))

  -- With the pipe as it is left. A read of an empty pipe waits.
  pub child_send :
      ℕ → FileSystem → List ℕ → FileRequest → List Piece → Outcome (List Event × List Piece)
  child_send compressed files directory r pipe =
      if is_traversal r.file_name then ok (error_send, pipe) else elim pipe [
        | [] ↦ unfinished
        | p ∷ rest ↦ do
          buffer ← segment_header r.session_id p
          elim (files (join_path directory r.file_name)) [
            | none ↦ ok (error_send, rest)
            | some file ↦ do
              segment ← read_segment file p buffer
              e ← send_segment compressed segment
              ok (e ∷ [], rest)
          ]
      ]

  -- With what is written to the pipe.
  pub parent_send :
      ℕ → FileSystem → List ℕ → FileRequest → ℕ → ℕ → Outcome (List Event × List Piece)
  parent_send compressed files directory r before after =
      if is_traversal r.file_name
      then ok (error_send, [])
      else elim (files (join_path directory r.file_name)) [
        | none ↦ ok (error_send, [])
        | some file ↦
            let (pieces, p) = split_range before after r.offset r.length in
            if out_of_range r (length file) then ok (error_send, []) else (do
              buffer ← segment_header r.session_id p
              segment ← read_segment file p buffer
              e ← send_segment compressed segment
              ok (e ∷ [], pieces))
      ]
