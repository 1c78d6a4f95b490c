-- ===== src/Message/Laws.antt =====
-- What `get_description` makes of a message that arrives at once, in pieces, or not at all.
use multiplexing_server.Base.{
  ℕ, zero, suc, ◌+◌, ◌*◌, ◌/◌, ◌%◌, ◌^◌, ◌<◌, ◌≡◌, refl, ap, ◌∙◌, inl, inr, true, false, ◌||◌, not,
  Bool-cases, Option, none, some, List, [], ◌∷◌, ◌++◌, append-nil, append_assoc, ok, ◌>>=◌, length,
  drop, replicate, take-length-append, drop-length-append, take_of_le, drop_all, lt→ltb, ◌==◌,
  arith,
}
use multiplexing_server.Codec.Dict.{Dict}
use multiplexing_server.Wire.{be_bytes, length-be_bytes, bswap, of_le, bswap-of_le-be_bytes}
use multiplexing_server.Message.{
  bytes, Socket, got, rest_of, read, fill, Message, closed, bare, full, has_payload,
  needs_decompression, decompress_message, malloc, read_buffer, read_payload, describe,
  get_description,
}

-- The first byte of a message.
abbrev pub header_byte : ℕ → ℕ → ℕ → ℕ
header_byte type compression requires_compression =
    type * 16 + compression * 8 + requires_compression * 4

-- A message as it is sent: the first byte, the length in network order, the payload.
abbrev pub frame : ℕ → List ℕ → List ℕ
frame header payload = header ∷ (be_bytes 8 (length payload) ++ payload)

-- The buffer of a payload: null if it is empty.
abbrev pub buffer_of : List ℕ → Option (List ℕ)
buffer_of [] = none
buffer_of (b ∷ bs) = some (b ∷ bs)

read-rest_of :
    (k : ℕ) (xs ys : List ℕ) (socket : Socket)
    → length xs ≡ k
    → 0 < k
    → read k (rest_of (xs ++ ys) socket) ≡ (got xs, rest_of ys socket)
unfolding read
read-rest_of k [] ys socket e h = absurd (omega arith)
read-rest_of k (x ∷ xs) ys socket e h =
    rw (← e) (rw (take-length-append xs ys, drop-length-append xs ys) refl)

pub header_fields :
    (type c r : ℕ)
    → type < 16
    → c < 2
    → r < 2
    → (header_byte type c r / 2 ^ 4 % 16 ≡ type)
      × (header_byte type c r / 2 ^ 3 % 2 ≡ c)
      × (header_byte type c r / 2 ^ 2 % 2 ≡ r)
header_fields type c r ht hc hr = omega arith

pub length-malloc : (malloc_junk : ℕ → ℕ) (n i : ℕ) → length (malloc malloc_junk n i) ≡ n
unfolding malloc
length-malloc malloc_junk zero i = refl
length-malloc malloc_junk (suc n) i = ap suc (length-malloc malloc_junk n (i + 1))

module _ (header_junk : ℕ) (malloc_junk : ℕ → ℕ) where
  read_buffer-all :
      (payload rest : List ℕ) (socket : Socket)
      → read_buffer header_junk malloc_junk (length payload) (rest_of (payload ++ rest) socket)
        ≡ (buffer_of payload, rest_of rest socket)
  unfolding read_buffer
  read_buffer-all [] rest socket = refl
  read_buffer-all (b ∷ bs) rest socket =
      rw (read-rest_of (suc (length bs)) (b ∷ bs) rest socket refl (omega arith)) (
        rw
          (
            drop_all (suc (length bs)) (malloc malloc_junk (suc (length bs)) 0)
                (omega (arith, length-malloc malloc_junk (suc (length bs)) 0)),
            append-nil,
            lt→ltb 0 (suc (length bs)) (omega arith),
          )
          refl)

  -- The length arrives whole.
  size_read : (n : ℕ) → n < 2 ^ 64 → bswap 8 (of_le (fill (got (be_bytes 8 n)) (replicate 8 0))) ≡ n
  size_read n h =
      rw
        (
          drop_all {A = ℕ} (length (be_bytes 8 n)) (replicate 8 0)
              (omega (arith, length-be_bytes 8 n)),
          append-nil,
        )
        (bswap-of_le-be_bytes 8 n h)

  module _ (dict : Dict) (type c r : ℕ) (ht : type < 16) (hc : c < 2) (hr : r < 2) where
    -- The message that a frame stands for, before any decompression.
    abbrev framed : Option (List ℕ) → ℕ → Message
    framed buffer size = record {
      type = type;
      compression = c;
      requires_compression = r;
      length = size;
      buffer = buffer;
    }

    read_payload-frame :
        (payload rest : List ℕ) (socket : Socket)
        → length payload < 2 ^ 64
        → read_payload header_junk malloc_junk dict
            (header_byte type c r)
            (rest_of (be_bytes 8 (length payload) ++ (payload ++ rest)) socket)
          ≡ (decompress_message dict (framed (buffer_of payload) (length payload)) >>= λ m.
              ok (full m, rest_of rest socket))
    unfolding read_payload
    read_payload-frame payload rest socket h =
        let (e4, e3, e2) = header_fields type c r ht hc hr in
        rw
          (read-rest_of 8 (be_bytes 8 (length payload)) (payload ++ rest) socket
            (length-be_bytes 8 (length payload)) (omega arith))
          (rw (size_read (length payload) h)
            (rw (read_buffer-all payload rest socket) (rw (e4, e3, e2) refl)))

  read_buffer-part :
      (size b : ℕ) (part bs : List ℕ) (socket : Socket)
      → 0 < length part
      → length part < size
      → read_buffer header_junk malloc_junk size (rest_of part (bytes b bs ∷ socket))
        ≡ (some (part ++ drop (length part) (malloc malloc_junk size 0)), bytes b bs ∷ socket)
  unfolding read_buffer read
  read_buffer-part size b [] bs socket h lt = absurd (omega arith)
  read_buffer-part size b (p ∷ ps) bs socket h lt =
      rw
        (
          lt→ltb 0 size (omega arith),
          take_of_le size (p ∷ ps) (omega arith),
          drop_all size (p ∷ ps) (omega arith),
        )
        refl

  read_payload-part :
      (dict : Dict) (type r : ℕ)
      → type < 16
      → r < 2
      → (size b : ℕ) (part bs : List ℕ) (socket : Socket) → size < 2 ^ 64
      → 0 < length part
      → length part < size
      → read_payload header_junk malloc_junk dict
          (header_byte type 0 r)
          (rest_of (be_bytes 8 size ++ part) (bytes b bs ∷ socket))
        ≡ ok (
          full (record {
            type = type;
            compression = 0;
            requires_compression = r;
            length = size;
            buffer = some (part ++ drop (length part) (malloc malloc_junk size 0));
          }),
          bytes b bs ∷ socket,
        )
  unfolding read_payload decompress_message needs_decompression
  read_payload-part dict type r ht hr size b part bs socket hs h lt =
      let (e4, e3, e2) = header_fields type 0 r ht (omega arith) hr in
      rw
        (read-rest_of 8 (be_bytes 8 size) part (bytes b bs ∷ socket) (length-be_bytes 8 size)
          (omega arith))
        (rw (size_read size hs)
          (rw (read_buffer-part size b part bs socket h lt) (rw (e4, e3, e2) refl)))

pub has_payload-lt : (type : ℕ) → has_payload type ≡ true → type < 16
unfolding has_payload
has_payload-lt type h = ground arith

pub describes :
    (type : ℕ) → has_payload type ≡ true → ((type == 8) || not (has_payload type)) ≡ false
unfolding has_payload
describes type h = ground arith

-- A message of a type with a payload, shorter than 2^64, that arrives at once, whatever comes
-- behind it: `get_description` returns the fields of its first byte, its length and its payload,
-- decompressed if the flags ask for it, and leaves the rest.
pub get_description-frame :
    (header_junk : ℕ) (malloc_junk : ℕ → ℕ) (dict : Dict) (type c r : ℕ) (payload rest : List ℕ)
    (socket : Socket)
    → has_payload type ≡ true
    → c < 2
    → r < 2
    → length payload < 2 ^ 64
    → get_description header_junk malloc_junk dict
        (rest_of (frame (header_byte type c r) payload ++ rest) socket)
      ≡ (decompress_message dict (record {
        type = type;
        compression = c;
        requires_compression = r;
        length = length payload;
        buffer = buffer_of payload;
      })
          >>= λ m. ok (full m, rest_of rest socket))
unfolding get_description describe read
get_description-frame header_junk malloc_junk dict type c r payload rest socket ht hc hr h =
    let lt = has_payload-lt type ht in
    let (e4, e3, e2) = header_fields type c r lt hc hr in
    rw (e4) (
      rw (describes type ht) (
        ap
          (λ l. read_payload header_junk malloc_junk dict (header_byte type c r) (rest_of l socket))
          (append_assoc (be_bytes 8 (length payload)) payload rest)
        ∙ read_payload-frame header_junk malloc_junk dict type c r lt hc hr payload rest socket h))

-- A message with a payload that is not compressed, of which a part only has arrived behind the
-- length: the rest of the buffer is what `malloc` left there, and the bytes that arrive next are
-- left for the next call, which takes them for a first byte.
pub get_description_split :
    (header_junk : ℕ) (malloc_junk : ℕ → ℕ) (dict : Dict) (type r size b : ℕ) (part bs : List ℕ)
    (socket : Socket)
    → has_payload type ≡ true
    → r < 2
    → size < 2 ^ 64
    → 0 < length part
    → length part < size
    → get_description header_junk malloc_junk dict
        (rest_of (header_byte type 0 r ∷ (be_bytes 8 size ++ part)) (bytes b bs ∷ socket))
      ≡ ok (
        full (record {
          type = type;
          compression = 0;
          requires_compression = r;
          length = size;
          buffer = some (part ++ drop (length part) (malloc malloc_junk size 0));
        }),
        bytes b bs ∷ socket,
      )
unfolding get_description describe read
get_description_split header_junk malloc_junk dict type r size b part bs socket ht hr hs h lt =
    let t = has_payload-lt type ht in
    let (e4, e3, e2) = header_fields type 0 r t (omega arith) hr in
    rw e4 (
      rw (describes type ht)
        (read_payload-part header_junk malloc_junk dict type r t hr size b part bs socket hs h lt))

-- At the end of the stream.
pub get_description-closed :
    (header_junk : ℕ) (malloc_junk : ℕ → ℕ) (dict : Dict)
    → get_description header_junk malloc_junk dict [] ≡ ok (closed, [])
unfolding get_description read
get_description-closed header_junk malloc_junk dict = refl

-- A first byte with a type that has no payload: nothing behind it is read.
pub get_description-bare :
    (header_junk : ℕ) (malloc_junk : ℕ → ℕ) (dict : Dict) (b : ℕ) (rest : List ℕ) (socket : Socket)
    → has_payload (b / 2 ^ 4 % 16) ≡ false
    → get_description header_junk malloc_junk dict (rest_of (b ∷ rest) socket)
      ≡ ok (bare (b / 2 ^ 4 % 16), rest_of rest socket)
unfolding get_description describe read
get_description-bare header_junk malloc_junk dict b rest socket h =
    rw h (elim (Bool-cases ((b / 2 ^ 4 % 16) == 8)) [ inl e ↦ rw e refl | inr e ↦ rw e refl ])
