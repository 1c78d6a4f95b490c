-- ===== src/Segments/Send.antt =====
-- What one connection sends of a file: `child_send`, and the end of `parent_send`.
use multiplexing_server.Base.{
  ℕ, zero, suc, ◌+◌, ◌-◌, ◌%◌, ◌^◌, ◌≤◌, ◌<◌, ◌≡◌, ◌≢◌, ◌⊎◌, inl, inr, refl, ap, ap₂, sym, ◌∙◌,
  false, Bool-cases, some, List, [], ◌∷◌, ◌++◌, append-nil, append_assoc, ok, ◌>>=◌, >>=-eq-ok,
  ◌==◌, length, length-append, length-take, length-drop, take, drop, take-length-append, drop_all,
  All, All-append, arith, le→leb,
}
use multiplexing_server.Codec.Dict.{Dict, IsDict, IsPrefixFree, IsByte}
use multiplexing_server.Codec.Compress.Laws.{encode, length-encode, compress-Packs}
use multiplexing_server.Codec.Decompress.{decompress}
use multiplexing_server.Codec.Decompress.Laws.{decompress-Packs}
use multiplexing_server.Wire.{be_bytes, length-be_bytes, be_bytes-Byte, le_bytes-bswap}
use multiplexing_server.Message.{malloc}
use multiplexing_server.Message.Laws.{frame, length-malloc}
use multiplexing_server.RequestList.{FileRequest}
use multiplexing_server.Response.{Event, sends, is_traversal, join_path, FileSystem}
use multiplexing_server.Response.Echo.{container-frame}
use multiplexing_server.Segments.{Piece, segment_header, read_segment, send_segment, child_send}

-- The bytes of a file that a piece stands for.
abbrev pub slice : List ℕ → Piece → List ℕ
slice file p = take p.length (drop p.offset file)

-- The session, the offset and the length of a piece.
abbrev pub fields : ℕ → Piece → List ℕ
fields session_id p = be_bytes 4 session_id ++ (be_bytes 8 p.offset ++ be_bytes 8 p.length)

-- A segment as a client reads it.
abbrev pub segment : ℕ → List ℕ → Piece → List ℕ
segment session_id file p = fields session_id p ++ slice file p

-- The event sends a message whose payload is `bs`, compressed if the client asks for it.
abbrev pub Delivers : Dict → ℕ → List ℕ → Event → Type 0
Delivers dict compressed bs e =
    (header : ℕ) × (payload : List ℕ) × (e ≡ sends (frame header payload))
    × (((compressed ≡ 1) × (header ≡ 0x78) × (decompress dict payload ≡ ok bs))
        ⊎ ((compressed ≢ 1) × (header ≡ 0x70) × (payload ≡ bs)))

length-fields : (session_id : ℕ) (p : Piece) → length (fields session_id p) ≡ 20
length-fields session_id p = omega (
  arith,
  length-append (be_bytes 4 session_id) (be_bytes 8 p.offset ++ be_bytes 8 p.length),
  length-append (be_bytes 8 p.offset) (be_bytes 8 p.length),
  length-be_bytes 4 session_id,
  length-be_bytes 8 p.offset,
  length-be_bytes 8 p.length,
)

length-slice :
    (file : List ℕ) (p : Piece)
    → p.offset + p.length ≤ length file
    → length (slice file p) ≡ p.length
length-slice file p h =
    omega (arith, length-take p.length (drop p.offset file), length-drop p.offset file)

take_fields : (n : ℕ) (xs ys : List ℕ) → length xs ≡ n → take n (xs ++ ys) ≡ xs
take_fields n xs ys h = rw (← h) (take-length-append xs ys)

All-take : (n : ℕ) (xs : List ℕ) → All IsByte xs → All IsByte (take n xs)
All-take zero xs h = tt
All-take (suc n) [] h = tt
All-take (suc n) (x ∷ xs) h = (h.0, All-take n xs h.1)

All-drop : (n : ℕ) (xs : List ℕ) → All IsByte xs → All IsByte (drop n xs)
All-drop zero xs h = h
All-drop (suc n) [] h = tt
All-drop (suc n) (x ∷ xs) h = All-drop n xs h.1

pub segment-IsByte :
    (session_id : ℕ) (file : List ℕ) (p : Piece)
    → All IsByte file
    → All IsByte (segment session_id file p)
segment-IsByte session_id file p h =
    All-append IsByte (fields session_id p) (slice file p)
      (All-append IsByte (be_bytes 4 session_id) (be_bytes 8 p.offset ++ be_bytes 8 p.length)
        (be_bytes-Byte 4 session_id)
        (All-append IsByte (be_bytes 8 p.offset) (be_bytes 8 p.length) (be_bytes-Byte 8 p.offset)
          (be_bytes-Byte 8 p.length)))
      (All-take p.length (drop p.offset file) (All-drop p.offset file h))

-- A segment of a file is at most 20 bytes longer than the file.
pub length-segment :
    (session_id : ℕ) (file : List ℕ) (p : Piece)
    → length (segment session_id file p) ≤ 20 + length file
length-segment session_id file p = omega (
  arith,
  length-append (fields session_id p) (slice file p),
  length-fields session_id p,
  length-take p.length (drop p.offset file),
  length-drop p.offset file,
)

pub segment-ne-nil : (session_id : ℕ) (file : List ℕ) (p : Piece) → segment session_id file p ≢ []
segment-ne-nil session_id file p z = omega (
  arith,
  ap length z,
  length-append (fields session_id p) (slice file p),
  length-fields session_id p,
)

module _ (malloc_junk junk : ℕ → ℕ) (dict : Dict) where
  segment_header_lem :
      (session_id : ℕ) (p : Piece)
      → 20 + p.length < 2 ^ 64
      → segment_header malloc_junk junk dict session_id p
        ≡ ok (fields session_id p ++ malloc malloc_junk p.length 0)
  unfolding segment_header
  segment_header_lem session_id p lt =
      let size : (20 + p.length) % 2 ^ 64 ≡ 20 + p.length = omega (arith, lt) in
      let rest : 20 + p.length - 20 ≡ p.length = omega arith in
      rw size (
        rw (le→leb 20 (20 + p.length) (omega arith), rest)
          (ap ok (
            ap₂ ◌++◌ (le_bytes-bswap 4 session_id) (
              ap₂ ◌++◌ (le_bytes-bswap 8 p.offset)
                (ap (λ t. t ++ malloc malloc_junk p.length 0) (le_bytes-bswap 8 p.length)))
            ∙ sym (
                append_assoc (be_bytes 4 session_id) (be_bytes 8 p.offset ++ be_bytes 8 p.length)
                  (malloc malloc_junk p.length 0)
                ∙ ap (λ t. be_bytes 4 session_id ++ t)
                    (append_assoc (be_bytes 8 p.offset) (be_bytes 8 p.length)
                      (malloc malloc_junk p.length 0))))))

  -- The buffer is made, with room for the fields and the piece.
  pub segment_header-length :
      (session_id : ℕ) (p : Piece)
      → 20 + p.length < 2 ^ 64
      → (buffer : List ℕ) × (segment_header malloc_junk junk dict session_id p ≡ ok buffer)
        × (length buffer ≡ 20 + p.length)
  segment_header-length session_id p lt = (
    fields session_id p ++ malloc malloc_junk p.length 0,
    segment_header_lem session_id p lt,
    omega (
      arith,
      length-append (fields session_id p) (malloc malloc_junk p.length 0),
      length-fields session_id p,
      length-malloc malloc_junk p.length 0,
    ),
  )

  read_segment_lem :
      (file : List ℕ) (p : Piece) (front behind : List ℕ)
      → length front ≡ 20
      → length behind ≡ p.length
      → p.offset + p.length ≤ length file
      → read_segment malloc_junk junk dict file p (front ++ behind) ≡ ok (front ++ slice file p)
  unfolding read_segment
  read_segment_lem file p front behind hf hb h =
      let size = length-slice file p h in
      rw
        (
          le→leb (20 + length (slice file p)) (length (front ++ behind))
              (omega (arith, length-append front behind, size)),
          take_fields 20 front behind hf,
          drop_all (20 + length (slice file p)) (front ++ behind)
              (omega (arith, length-append front behind, size)),
          append-nil,
        )
        refl

  -- The buffer holds the segment when the file has been read into it.
  pub read_segment-segment :
      (session_id : ℕ) (file : List ℕ) (p : Piece)
      → p.offset + p.length ≤ length file
      → 20 + p.length < 2 ^ 64
      → (segment_header malloc_junk junk dict session_id p
          >>= read_segment malloc_junk junk dict file p)
        ≡ ok (segment session_id file p)
  read_segment-segment session_id file p h lt = rw (segment_header_lem session_id p lt) (
      read_segment_lem file p (fields session_id p) (malloc malloc_junk p.length 0)
        (length-fields session_id p) (length-malloc malloc_junk p.length 0) h)

  module _ (hj : (i : ℕ) → junk i < 256) (d : IsDict dict) (f : IsPrefixFree dict) where
    pub send_segment-Delivers :
        (compressed : ℕ) (bs : List ℕ)
        → All IsByte bs
        → bs ≢ []
        → length (encode dict bs) < 2 ^ 31
        → (e : Event) × (send_segment malloc_junk junk dict compressed bs ≡ ok e)
          × Delivers dict compressed bs e
    unfolding send_segment
    send_segment-Delivers compressed bs hb ne lt =
        let (result, e, p) =
          compress-Packs junk dict bs hj d hb (omega (arith, length-encode dict bs d f hb, lt))
            lt in
        let back = decompress-Packs dict bs result d f hb ne lt p in
        elim (Bool-cases (compressed == 1)) [
          | inl g ↦ (
            sends (frame 0x78 result),
            rw g (rw e (rw (container-frame 0x78 result) refl)),
            (0x78, result, refl, inl (ground arith, refl, back)),
          )
          | inr g ↦ (
            sends (frame 0x70 bs),
            rw g (rw (container-frame 0x70 bs) refl),
            (0x70, bs, refl, inr (ground arith, refl, refl)),
          )
        ]

    -- A connection that takes a piece from the pipe delivers its segment, and leaves the rest of the
    -- pipe.
    pub child_send-Delivers :
        (compressed : ℕ) (files : FileSystem) (directory file : List ℕ) (r : FileRequest)
        (p : Piece) (pipe : List Piece)
        → is_traversal r.file_name ≡ false
        → files (join_path directory r.file_name) ≡ some file
        → All IsByte file
        → p.offset + p.length ≤ length file
        → 20 + p.length < 2 ^ 64
        → length (encode dict (segment r.session_id file p)) < 2 ^ 31
        → (e : Event) × (child_send malloc_junk junk dict compressed files directory r (p ∷ pipe)
            ≡ ok (e ∷ [], pipe))
          × Delivers dict compressed (segment r.session_id file p) e
    unfolding child_send
    child_send-Delivers compressed files directory file r p pipe ht hf hb h lt fits =
        let bs = segment r.session_id file p in
        let (buffer, e1, e2) =
          >>=-eq-ok (segment_header malloc_junk junk dict r.session_id p)
            (read_segment malloc_junk junk dict file p)
            (read_segment-segment r.session_id file p h lt) in
        let (e, e3, delivers) =
          send_segment-Delivers compressed bs (segment-IsByte r.session_id file p hb)
            (segment-ne-nil r.session_id file p) fits in
        (e, rw (ht, e1, hf) (rw e2 (rw e3 refl)), delivers)
