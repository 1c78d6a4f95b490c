-- ===== src/Response.antt =====
-- The handlers of message_handling.c that answer from one message: `error_send`, `echo`,
-- `file_size_response`, `directory_send`. A handler's trace is what it does to the socket and, where it
-- matters, to memory. `send` passes on all of its buffer.
pub mod Echo
pub mod FileSize
pub mod Directory
mod Tests
use multiplexing_server.Base.{
  ℕ, zero, suc, ◌+◌, ◌^◌, Bool, true, false, ◌&&◌, ◌||◌, Option, none, some, List, [], ◌∷◌, ◌++◌,
  Outcome, ok, fault, ◌>>=◌, length, leb, ◌==◌, if◌then◌else◌,
}
use multiplexing_server.Codec.Dict.{Dict}
use multiplexing_server.Codec.Compress.{compress}
use multiplexing_server.Wire.{le_bytes, bswap}
use multiplexing_server.Message.{Message, contents}

pub data Event : Type 0 where
  sends : List ℕ → Event
  frees_path : Event

-- The bytes that the peer gets.
unfoldable pub sent : List Event → List ℕ
sent [] = []
sent (sends bs ∷ es) = bs ++ sent es
sent (frees_path ∷ es) = sent es

-- The header 0xf0 and a length of zero, in two calls.
pub error_send : List Event
error_send = sends (0xf0 ∷ []) ∷ sends (le_bytes 8 0) ∷ []

-- A C string that starts the buffer: a read past a buffer with no zero byte in it is a fault.
pub c_string : List ℕ → Outcome (List ℕ)
c_string [] = fault
c_string (b ∷ bs) = elim (b == 0) [ true ↦ ok [] | false ↦ c_string bs >>= λ rest. ok (b ∷ rest) ]

-- `strstr(name, "..") != NULL`
unfoldable pub has_dots : List ℕ → Bool
has_dots [] = false
has_dots (a ∷ []) = false
has_dots (a ∷ b ∷ name) = ((a == b'.') && (b == b'.')) || has_dots (b ∷ name)

-- `strchr(name, '/') != NULL`
unfoldable pub has_slash : List ℕ → Bool
has_slash [] = false
has_slash (a ∷ name) = (a == b'/') || has_slash name

-- The check that each handler of a file name starts with.
unfoldable pub is_traversal : List ℕ → Bool
is_traversal name = has_dots name || has_slash name

-- `snprintf(path, path_len, "%s/%s", directory, filename)`, with `path_len` enough for all of it
unfoldable pub join_path : List ℕ → List ℕ → List ℕ
join_path directory name = directory ++ b'/' ∷ name

-- The files that can be opened for reading, by path, with their contents.
abbrev pub FileSystem : Type 0
FileSystem = List ℕ → Option (List ℕ)

-- A directory entry: whether it is a regular file, and its name, which is a C string.
pub record Entry : Type 0 where
  pub is_regular : Bool
  pub name : List ℕ

-- The bytes of a header, a 64-bit length in network order, and a payload, as the handlers put them
-- together in one buffer.
pub container : ℕ → List ℕ → List ℕ
container header payload = header ∷ (le_bytes 8 (bswap 8 (length payload)) ++ payload)

-- The loop over the entries: the names of the regular files, each with its zero byte.
unfoldable pub listing : List Entry → List ℕ
listing [] = []
listing (e ∷ es) = if e.is_regular then e.name ++ 0 ∷ listing es else listing es

unfoldable pub any_regular : List Entry → Bool
any_regular [] = false
any_regular (e ∷ es) = e.is_regular || any_regular es

-- `buf` when the loop is done. `none` is a directory that cannot be opened: the buffer stays null.
unfoldable pub directory_buffer : Option (List Entry) → List ℕ
directory_buffer none = []
directory_buffer (some entries) = if any_regular entries then listing entries else 0 ∷ []

-- The rest is over what `realloc` leaves in fresh memory, and the dictionary.
module _ (junk : ℕ → ℕ) (dict : Dict) where
  -- A message's `length` is that of its payload. `full` has room for the payload as it came; a copy of
  -- more bytes into it is a fault. The second part of the result is the payload that the message is
  -- left with.
  unfoldable pub echo : Message → Outcome (List Event × List ℕ)
  echo input =
      let before = contents input.buffer in
      (do
        after ←
            (if (input.requires_compression == 1) && (input.compression == 0)
              then compress junk dict before
              else ok before)
        let header = if input.requires_compression == 1 then 0x18 else 0x10
        if leb (length after) (length before)
            then ok (sends (container header after) ∷ [], after)
            else fault)

  -- The size of the file as a payload of eight bytes. The path is freed before the answer is made up
  -- and once more behind it.
  unfoldable pub file_size_response : FileSystem → List ℕ → Message → Outcome (List Event)
  file_size_response files directory input = do
    filename ← c_string (contents input.buffer)
    if is_traversal filename then ok error_send else elim (files (join_path directory filename)) [
      | none ↦ ok (frees_path ∷ error_send)
      | some file ↦ do
        let size = le_bytes 8 (bswap 8 (length file))
        answer ←
            (if input.requires_compression == 1
              then (compress junk dict size >>= λ payload. ok (container 0x58 payload))
              else ok (container 0x50 size))
        ok (frees_path ∷ sends answer ∷ frees_path ∷ [])
    ]

  -- The answer goes out in three calls. The `int` `old_l` counts the bytes of the buffer: its overflow
  -- is a fault.
  unfoldable pub directory_send : Option (List Entry) → Message → Outcome (List Event)
  directory_send entries input =
      let buf = directory_buffer entries in
      if leb (2 ^ 31) (length buf)
      then fault
      else if input.requires_compression == 1
      then (do
        payload ← compress junk dict buf
        ok (sends (0x38 ∷ []) ∷ sends (le_bytes 8 (bswap 8 (length payload))) ∷ sends payload ∷ []))
      else ok (sends (0x30 ∷ []) ∷ sends (le_bytes 8 (bswap 8 (length buf))) ∷ sends buf ∷ [])
