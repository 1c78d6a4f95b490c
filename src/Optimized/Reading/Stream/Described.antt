-- ===== src/Optimized/Reading/Stream/Described.antt =====
-- `get_description_optimized` against the stream of bytes of a connection: how the bytes are cut into
-- arrivals makes no difference.
use multiplexing_server.Base.{
  ℕ, zero, suc, ◌/◌, ◌%◌, ◌^◌, ◌≡◌, refl, ap, inl, inr, ◌||◌, not, Bool-cases, Option-cases, Option,
  none, some, List, [], ◌∷◌, Outcome, ok, ◌>>=◌, >>=-assoc, lt→ltb, ltb, ◌==◌, if◌then◌else◌, arith,
}
use multiplexing_server.Codec.Dict.{Dict}
use multiplexing_server.Wire.{of_le, bswap}
use multiplexing_server.Message.{
  bytes, failed, Socket, read, rest_of, Message, Description, closed, bare, full, has_payload,
  decompress_message,
}
use multiplexing_server.Optimized.Reading.{
  read_full, read_whole, read_payload_optimized, get_description_optimized,
}
use multiplexing_server.Optimized.Reading.Stream.{
  stream, stream-rest_of, AllArrive, rest_of-AllArrive, take_exactly, take_exactly_zero,
  read_loop-Reads,
}

-- The buffer of a payload of this size; none if the stream ends before it does.
abbrev pub buffer_from : ℕ → Option (List ℕ) → Option (Option (List ℕ))
buffer_from size none = if ltb 0 size then none else some none
buffer_from size (some bs) = if ltb 0 size then some (some bs) else some none

-- A message before any decompression.
abbrev pub received : ℕ → ℕ → Option (List ℕ) → Message
received header size buffer = record {
  type = header / 2 ^ 4 % 16;
  compression = header / 2 ^ 3 % 2;
  requires_compression = header / 2 ^ 2 % 2;
  length = size;
  buffer = buffer;
}

-- The message with these first bytes and this buffer, and the bytes behind it.
abbrev pub message_with :
    Dict → ℕ → ℕ → Option (Option (List ℕ)) → List ℕ → Outcome (Description × List ℕ)
message_with dict header size none rest = ok (closed, rest)
message_with dict header size (some buffer) rest =
    decompress_message dict (received header size buffer) >>= λ m. ok (full m, rest)

-- The length and the payload behind a first byte.
abbrev pub sized_stream : Dict → ℕ → Option (List ℕ) → List ℕ → Outcome (Description × List ℕ)
sized_stream dict header none rest = ok (closed, rest)
sized_stream dict header (some len) rest =
    let size = bswap 8 (of_le len) in
    message_with dict header size (buffer_from size (take_exactly size rest).0)
      (take_exactly size rest).1

-- The message that a stream of bytes starts with, and the bytes behind it.
unfoldable pub describe_stream : Dict → List ℕ → Outcome (Description × List ℕ)
describe_stream dict [] = ok (closed, [])
describe_stream dict (header ∷ bs) =
    let type = header / 2 ^ 4 % 16 in
    let after = sized_stream dict header (take_exactly 8 bs).0 (take_exactly 8 bs).1 in
    if (type == 8) || not (has_payload type) then ok (bare type, bs) else after

-- A message and the bytes that are left behind it.
abbrev pub with_stream : Outcome (Description × Socket) → Outcome (Description × List ℕ)
with_stream r = r >>= λ p. ok (p.0, stream p.1)

-- The same message, and the same bytes left.
abbrev pub Agrees : Outcome (Description × Socket) → Outcome (Description × List ℕ) → Type 0
Agrees r s = with_stream r ≡ s

record Fetched (size : ℕ) (socket : Socket) : Type 0 where
  rest : Socket
  returns :
      read_whole size socket ≡ ok (buffer_from size (take_exactly size (stream socket)).0, rest)
  behind : stream rest ≡ (take_exactly size (stream socket)).1

read_whole-Fetched : (size : ℕ) (socket : Socket) → AllArrive socket → Fetched size socket
unfolding read_whole read_full
read_whole-Fetched zero socket h = record {
  rest = socket;
  returns = rw (take_exactly_zero (stream socket)) refl;
  behind = rw (take_exactly_zero (stream socket)) refl;
}
read_whole-Fetched (suc n) socket h =
    let w = read_loop-Reads (suc (suc n)) (suc n) socket (omega arith) h in
    record {
      rest = w.rest;
      returns = rw (lt→ltb 0 (suc n) (omega arith)) (
          rw w.returns (elim (Option-cases (take_exactly (suc n) (stream socket)).0) [
            | inl e ↦ rw e (rw (lt→ltb 0 (suc n) (omega arith)) refl)
            | inr (bs, e) ↦ rw e (rw (lt→ltb 0 (suc n) (omega arith)) refl)
          ]));
      behind = w.behind;
    }

message_with-stream :
    (dict : Dict) (header size : ℕ) (buffer : Option (List ℕ)) (rest : Socket) (bs : List ℕ)
    → stream rest ≡ bs
    → Agrees
        (decompress_message dict (received header size buffer) >>= λ m. ok (full m, rest))
        (message_with dict header size (some buffer) bs)
message_with-stream dict header size buffer rest bs e =
    let k : Message → Outcome (Description × Socket) = λ m. ok (full m, rest) in
    let g : Description × Socket → Outcome (Description × List ℕ) = λ p. ok (p.0, stream p.1) in
    rw (← e) (>>=-assoc (decompress_message dict (received header size buffer)) k g)

read_payload_optimized-stream :
    (dict : Dict) (header : ℕ) (socket : Socket)
    → AllArrive socket
    → Agrees (read_payload_optimized dict header socket) (
        sized_stream dict header
          (take_exactly 8 (stream socket)).0
          (take_exactly 8 (stream socket)).1)
unfolding read_payload_optimized read_full
read_payload_optimized-stream dict header socket h =
    let w = read_loop-Reads 9 8 socket (omega arith) h in
    rw w.returns (elim (Option-cases (take_exactly 8 (stream socket)).0) [
      | inl e ↦ rw e (ap (λ l. ok (closed, l)) w.behind)
      | inr (len, e) ↦
          let size = bswap 8 (of_le len) in
          let v = read_whole-Fetched size w.rest w.arrive in
          rw e (
            rw v.returns (
              rw (← w.behind)
                (elim (Option-cases (buffer_from size (take_exactly size (stream w.rest)).0)) [
                  | inl n ↦ rw n (ap (λ l. ok (closed, l)) v.behind)
                  | inr (b, g) ↦ rw g (message_with-stream dict header size b v.rest _ v.behind)
                ])))
    ])

-- The message that `get_description_optimized` makes of a connection that does not fail, and what it
-- leaves of it, depend on the stream of bytes only, not on how they arrive: it is the message that the
-- stream starts with, or none if the stream ends before it does.
pub get_description_optimized-describe_stream :
    (dict : Dict) (socket : Socket)
    → AllArrive socket
    → Agrees (get_description_optimized dict socket) (describe_stream dict (stream socket))
unfolding get_description_optimized read describe_stream
get_description_optimized-describe_stream dict [] h = refl
get_description_optimized-describe_stream dict (failed ∷ socket) h = absurd h
get_description_optimized-describe_stream dict (bytes b bs ∷ socket) h =
    let type = b / 2 ^ 4 % 16 in
    let rest = rest_of bs socket in
    rw (← stream-rest_of bs socket) (elim (Bool-cases ((type == 8) || not (has_payload type))) [
      | inl e ↦ rw e refl
      | inr e ↦ rw e (read_payload_optimized-stream dict b rest (rest_of-AllArrive bs socket h))
    ])
