-- ===== src/Optimized/Transfer/Laws.antt =====
-- What `parent_send_optimized` sends and writes to the pipe, inside and outside of the file.
use multiplexing_server.Base.{
  ℕ, ◌+◌, ◌^◌, ◌≤◌, ◌<◌, ◌≡◌, ◌≢◌, refl, ap, ◌∙◌, false, some, List, [], ◌∷◌, ◌++◌, ok, >>=-eq-ok,
  length, length-take, length-drop, take, drop, lt→ltb, ltb, ltb_of_le, Bool-cases, inl, inr, ◌∙◌,
  le→leb, ==_of_ne, ==_self, arith,
}
use multiplexing_server.Codec.Dict.{Dict}
use multiplexing_server.Wire.{bswap, le_bytes-bswap}
use multiplexing_server.Message.Laws.{frame}
use multiplexing_server.RequestList.{FileRequest}
use multiplexing_server.Response.{Event, sent, error_send, is_traversal, FileSystem}
use multiplexing_server.Segments.{Piece, segment_header, read_segment}
use multiplexing_server.Segments.Send.{segment, read_segment-segment, segment_header-length}
use multiplexing_server.Optimized.Handlers.Sending.{send_parts-frame}
use multiplexing_server.Optimized.Transfer.{
  bounded_path, seek, read_limit, send_whole, parent_send_optimized,
}

-- The range that a request asks for.
abbrev pub range_of : FileRequest → Piece
range_of r = record { offset = r.offset; length = r.length }

-- What is written to the pipe for it.
abbrev pub range_swapped : FileRequest → Piece
range_swapped r = record { offset = bswap 8 r.offset; length = bswap 8 r.length }

read_limit_lem : (n : ℕ) → n ≤ 0x7ffff000 → read_limit n ≡ n
unfolding read_limit
read_limit_lem n h = rw (ltb_of_le n 0x7ffff000 h) refl

read_limit-le : (n : ℕ) → read_limit n ≤ n
unfolding read_limit
read_limit-le n = elim (Bool-cases (ltb 0x7ffff000 n)) [
  | inl e ↦ rw e (ground arith)
  | inr e ↦ rw e (omega arith)
]

module _ (accept malloc_junk junk : ℕ → ℕ) (dict : Dict) (files : FileSystem)
    (directory file : List ℕ) (r : FileRequest) (ht : is_traversal r.file_name ≡ false)
    (hf : files (bounded_path directory r.file_name) ≡ some file) where
  -- Of a file that exists, shorter than 2^63 bytes, whose name has no `..` and no `/`, and a range
  -- inside of it of 0x7ffff000 bytes at most, which is what one `read` passes on, to a client that asks
  -- for no compression, over a connection that takes a byte at least in every call of `send`, and in
  -- the second, which is the one for the length, all of its 8 bytes: `parent_send_optimized` sends one
  -- message with the session, the offset, the length and all the bytes of the range. What it writes to
  -- the pipe is one piece, whose offset and length are those of the range with their bytes in the
  -- reverse order.
  pub parent_send_optimized-segment :
      (compressed : ℕ)
      → compressed ≢ 1
      → r.offset + r.length ≤ length file
      → length file < 2 ^ 63
      → r.length ≤ 0x7ffff000
      → ((call : ℕ) → accept call ≢ 0)
      → 8 ≤ accept 1
      → (events : List Event) × (parent_send_optimized accept malloc_junk junk dict compressed files
            directory r
          ≡ ok (events, range_swapped r ∷ []))
        × (sent events ≡ frame 0x70 (segment r.session_id file (range_of r)))
  unfolding parent_send_optimized send_whole seek sent
  parent_send_optimized-segment compressed hc h lt few ha eight =
      let p = range_of r in
      let bs = segment r.session_id file p in
      let (buffer, e1, e2) =
        >>=-eq-ok (segment_header malloc_junk junk dict r.session_id p)
          (read_segment malloc_junk junk dict file p)
          (read_segment-segment malloc_junk junk dict r.session_id file p h (omega arith)) in
      let (events, e3, s) = send_parts-frame accept 0x70 bs ha eight in
      let all = read_limit_lem r.length few in
      let size : length (take r.length (drop r.offset file)) ≡ r.length =
        omega (arith, length-take r.length (drop r.offset file), length-drop r.offset file) in
      (
        events,
        rw (ht, hf)
            (rw (lt→ltb r.offset (2 ^ 63) (omega arith), all)
              (rw e1
                (rw e2 (rw size (rw (==_self r.length, ==_of_ne compressed 1 hc) (rw e3 refl)))))),
        s ∙ ap (λ l. 0x70 ∷ (l ++ bs)) (le_bytes-bswap 8 (length bs)),
      )

  -- A range of a file that exists, whose name has no `..` and no `/`, not empty, shorter than 2^64 - 20
  -- bytes, that starts below 2^63 and ends behind the end of the file, past 2^64 or not, is refused
  -- with an error message, and nothing is written to the pipe.
  pub parent_send_optimized_outside :
      (compressed : ℕ)
      → 0 < r.length
      → 20 + r.length < 2 ^ 64
      → r.offset < 2 ^ 63
      → length file < r.offset + r.length
      → parent_send_optimized accept malloc_junk junk dict compressed files directory r
        ≡ ok (error_send, [])
  unfolding parent_send_optimized seek read_segment
  parent_send_optimized_outside compressed hl hs ho h =
      let p = range_of r in
      let (buffer, e1, size) = segment_header-length malloc_junk junk dict r.session_id p hs in
      let found = take (read_limit r.length) (drop r.offset file) in
      let few : length found < r.length = omega (
        arith,
        length-take (read_limit r.length) (drop r.offset file),
        length-drop r.offset file,
        read_limit-le r.length,
      ) in
      rw (ht, hf)
        (rw (lt→ltb r.offset (2 ^ 63) ho) (
          rw e1 (
            rw (le→leb (20 + length found) (length buffer) (omega (arith, size, few)))
              (rw (==_of_ne (length found) r.length (λ e. omega (arith, e, few))) refl))))
