-- ===== src/Message.antt =====
-- The messages of message_handling.h, and `get_description` of message_handling.c, which reads one from
-- a socket.
pub mod Laws
pub mod Compressed
mod Tests
use multiplexing_server.Base.{
  ℕ, zero, suc, ◌+◌, ◌-◌, ◌/◌, ◌%◌, ◌^◌, Bool, true, false, ◌&&◌, ◌||◌, not, Option, none, some,
  List, [], ◌∷◌, ◌++◌, Outcome, ok, ◌>>=◌, length, take, drop, replicate, leb, ltb, ◌==◌,
  if◌then◌else◌,
}
use multiplexing_server.Codec.Dict.{Dict}
use multiplexing_server.Codec.Decompress.{decompress}
use multiplexing_server.Wire.{le_bytes, of_le, bswap}

-- What a peer does to a connection: some bytes arrive together, or the connection fails.
pub data Arrival : Type 0 where
  bytes : ℕ → List ℕ → Arrival
  failed : Arrival

-- What is still to come; at its end the peer has closed.
abbrev pub Socket : Type 0
Socket = List Arrival

-- The result of `read`: -1, or the bytes that it put into the buffer, none at the end of the stream.
pub data ReadResult : Type 0 where
  error : ReadResult
  got : List ℕ → ReadResult

-- What is left of bytes that arrived together.
abbrev pub rest_of : List ℕ → Socket → Socket
rest_of [] socket = socket
rest_of (b ∷ bs) socket = bytes b bs ∷ socket

-- `read(sockfd, buf, count)`: what has arrived together, up to `count` bytes of it.
unfoldable pub read : ℕ → Socket → ReadResult × Socket
read count [] = (got [], [])
read count (failed ∷ socket) = (error, socket)
read count (bytes b bs ∷ socket) = (got (take count (b ∷ bs)), rest_of (drop count (b ∷ bs)) socket)

-- The first bytes of a buffer, and what stood behind them.
abbrev pub fill : ReadResult → List ℕ → List ℕ
fill error old = old
fill (got bs) old = bs ++ drop (length bs) old

-- `struct message` with its header; `buffer` is `none` when it is null.
pub record Message : Type 0 where
  pub type : ℕ
  pub compression : ℕ
  pub requires_compression : ℕ
  pub length : ℕ
  pub buffer : Option (List ℕ)

-- `closed` is the null pointer. `bare` is a message of which only the type is set, and the buffer null.
pub data Description : Type 0 where
  closed : Description
  bare : ℕ → Description
  full : Message → Description

-- The types that carry a payload.
unfoldable pub has_payload : ℕ → Bool
has_payload type = (type == 0) || (type == 2) || (type == 4) || (type == 6)

-- `if (msg->main.compression == 1) ...`
unfoldable pub needs_decompression : Message → Bool
needs_decompression m =
    (m.compression == 1) && ((not (m.type == 0)) || not (m.requires_compression == 1))

abbrev pub contents : Option (List ℕ) → List ℕ
contents none = []
contents (some bs) = bs

-- `decompress(&msg, compress)`; of a null buffer the last byte cannot be read.
unfoldable pub decompress_message : Dict → Message → Outcome Message
decompress_message dict m =
    if needs_decompression m
    then (do
      payload ← decompress dict (contents m.buffer)
      ok (record m { length = length payload; buffer = some payload }))
    else ok m

-- `n` of the bytes that `malloc` returns, of which nothing is known.
unfoldable pub malloc : (ℕ → ℕ) → ℕ → ℕ → List ℕ
malloc malloc_junk zero i = []
malloc malloc_junk (suc n) i = malloc_junk i ∷ malloc malloc_junk n (i + 1)

-- The rest is over what stands in memory that is not set: in the byte `header` when it cannot be read,
-- and in the bytes that `malloc` returns.
module _ (header_junk : ℕ) (malloc_junk : ℕ → ℕ) where
  -- `if (msg->length > 0)`: the payload, over what `malloc` left there.
  pub read_buffer : ℕ → Socket → Option (List ℕ) × Socket
  read_buffer size socket =
      if ltb 0 size
      then (let (r, socket') = read size socket in
          (some (fill r (malloc malloc_junk size 0)), socket'))
      else (none, socket)

  -- The fields of the header, the length and the payload, when the type has them.
  pub read_payload : Dict → ℕ → Socket → Outcome (Description × Socket)
  read_payload dict header socket =
      let (len, socket') = read 8 socket in
      let size = bswap 8 (of_le (fill len (replicate 8 0))) in
      let (payload, socket'') = read_buffer size socket' in
      (do
        m ← decompress_message dict (record {
          type = header / 2 ^ 4 % 16;
          compression = header / 2 ^ 3 % 2;
          requires_compression = header / 2 ^ 2 % 2;
          length = size;
          buffer = payload;
        })
        ok (full m, socket''))

  -- The body of `get_description` once `header` is set.
  pub describe : Dict → ℕ → Socket → Outcome (Description × Socket)
  describe dict header socket =
      let type = header / 2 ^ 4 % 16 in
      if (type == 8) || not (has_payload type)
      then ok (bare type, socket)
      else read_payload dict header socket

  -- A failed read is not told from one that set `header`.
  pub get_description : Dict → Socket → Outcome (Description × Socket)
  get_description dict socket =
      let (r, socket') = read 1 socket in
      elim r [
        | error ↦ describe dict header_junk socket'
        | got bs ↦ elim bs [ [] ↦ ok (closed, socket') | header ∷ _ ↦ describe dict header socket' ]
      ]
