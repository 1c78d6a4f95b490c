-- ===== src/Optimized/Reading/Frames.antt =====
-- `get_description_optimized` against `get_description`, on a message that arrives in pieces.
use multiplexing_server.Base.{
  ℕ, suc, ◌^◌, ◌<◌, ◌≡◌, refl, sym, ap, ◌∙◌, true, some, List, [], ◌∷◌, ◌++◌, append_assoc,
  append-nil, Outcome, ok, ◌>>=◌, >>=-assoc, length, length-append, take-length-append,
  drop-length-append, le→leb, lt→ltb, arith,
}
use multiplexing_server.Codec.Dict.{Dict}
use multiplexing_server.Wire.{be_bytes, length-be_bytes, bswap-of_le-be_bytes}
use multiplexing_server.Message.{
  Socket, rest_of, Message, Description, full, has_payload, decompress_message, get_description,
}
use multiplexing_server.Message.Laws.{
  frame, header_byte, buffer_of, header_fields, has_payload-lt, describes, get_description-frame,
}
use multiplexing_server.Optimized.Reading.{get_description_optimized}
use multiplexing_server.Optimized.Reading.Stream.{stream, stream-rest_of, AllArrive, take_exactly}
use multiplexing_server.Optimized.Reading.Stream.Described.{
  describe_stream, sized_stream, message_with, buffer_from, with_stream, received,
  get_description_optimized-describe_stream,
}

take_exactly-prefix :
    (n : ℕ) (xs ys : List ℕ) → length xs ≡ n → take_exactly n (xs ++ ys) ≡ (some xs, ys)
unfolding take_exactly
take_exactly-prefix n xs ys e = rw (← e) (
    rw
      (
        le→leb (length xs) (length (xs ++ ys)) (omega (arith, length-append xs ys)),
        take-length-append xs ys,
        drop-length-append xs ys,
      )
      refl)

message_with-frame :
    (dict : Dict) (type c r : ℕ) (payload rest : List ℕ)
    → type < 16
    → c < 2
    → r < 2
    → length payload < 2 ^ 64
    → sized_stream dict
        (header_byte type c r)
        (some (be_bytes 8 (length payload)))
        (payload ++ rest)
      ≡ (decompress_message dict (record {
        type = type;
        compression = c;
        requires_compression = r;
        length = length payload;
        buffer = buffer_of payload;
      })
          >>= λ m. ok (full m, rest))
message_with-frame dict type c r payload rest ht hc hr lt =
    let (e4, e3, e2) = header_fields type c r ht hc hr in
    let k : Message → Outcome (Description × List ℕ) = λ m. ok (full m, rest) in
    rw (bswap-of_le-be_bytes 8 (length payload) lt) (
      rw (take_exactly-prefix (length payload) payload rest refl) (
        with_buffer (header_byte type c r) payload
        ∙ ap (λ m. decompress_message dict m >>= k) (rw (e4, e3, e2) refl)))
  where
    with_buffer :
        (header : ℕ) (bs : List ℕ)
        → message_with dict header (length bs) (buffer_from (length bs) (some bs)) rest ≡ (
            decompress_message dict (received header (length bs) (buffer_of bs)) >>= λ m.
            ok (full m, rest))
    with_buffer header [] = refl
    with_buffer header (b ∷ bs) = rw (lt→ltb 0 (suc (length bs)) (omega arith)) refl

pub describe_stream-frame :
    (dict : Dict) (type c r : ℕ) (payload rest : List ℕ)
    → has_payload type ≡ true
    → c < 2
    → r < 2
    → length payload < 2 ^ 64
    → describe_stream dict (frame (header_byte type c r) payload ++ rest) ≡ (
        decompress_message dict (record {
          type = type;
          compression = c;
          requires_compression = r;
          length = length payload;
          buffer = buffer_of payload;
        })
        >>= λ m. ok (full m, rest))
unfolding describe_stream
describe_stream-frame dict type c r payload rest hp hc hr lt =
    let ht = has_payload-lt type hp in
    let (e4, e3, e2) = header_fields type c r ht hc hr in
    rw e4 (
      rw (describes type hp) (
        ap (λ l. sized_stream dict (header_byte type c r) (take_exactly 8 l).0 (take_exactly 8 l).1)
          (append_assoc (be_bytes 8 (length payload)) payload rest)
        ∙ rw
            (take_exactly-prefix 8 (be_bytes 8 (length payload)) (payload ++ rest)
              (length-be_bytes 8 (length payload)))
            (message_with-frame dict type c r payload rest ht hc hr lt)))

-- A message of a type with a payload, shorter than 2^64, that arrives on a connection that does not
-- fail, in whatever pieces, with whatever behind it: `get_description_optimized` makes of it, and
-- leaves of the stream, what `get_description` does when all of it arrives at once.
pub get_description_optimized-get_description :
    (header_junk : ℕ) (malloc_junk : ℕ → ℕ) (dict : Dict) (socket : Socket) (type c r : ℕ)
    (payload rest : List ℕ)
    → AllArrive socket
    → stream socket ≡ frame (header_byte type c r) payload ++ rest
    → has_payload type ≡ true
    → c < 2
    → r < 2
    → length payload < 2 ^ 64
    → with_stream (get_description_optimized dict socket)
      ≡ with_stream (get_description header_junk malloc_junk dict (rest_of (stream socket) []))
get_description_optimized-get_description header_junk malloc_junk dict socket type c r payload rest
      h e hp hc hr lt =
    let m : Message = record {
      type = type;
      compression = c;
      requires_compression = r;
      length = length payload;
      buffer = buffer_of payload;
    } in
    let k : Message → Outcome (Description × Socket) = λ m. ok (full m, rest_of rest []) in
    let g : Description × Socket → Outcome (Description × List ℕ) = λ p. ok (p.0, stream p.1) in
    let k' : List ℕ → Message → Outcome (Description × List ℕ) = λ l m'. ok (full m', l) in
    get_description_optimized-describe_stream dict socket h
    ∙ rw e (
        describe_stream-frame dict type c r payload rest hp hc hr lt
        ∙ sym (
            ap (λ o. o >>= g)
              (get_description-frame header_junk malloc_junk dict type c r payload rest [] hp hc hr
                lt)
            ∙ >>=-assoc (decompress_message dict m) k g
            ∙ ap (λ l. decompress_message dict m >>= k' l)
                (stream-rest_of rest [] ∙ append-nil rest)))
