-- ===== src/Segments/Failures.antt =====
-- How a transfer goes wrong: a range outside of the file, a range whose end is past 2^64, and a
-- connection that joins while the range is divided.
use multiplexing_server.Base.{
  ℕ, zero, suc, ◌+◌, ◌-◌, ◌*◌, ◌/◌, ◌%◌, ◌^◌, ◌≤◌, ◌<◌, ◌≡◌, inl, inr, refl, ap, ◌∙◌, true, false,
  Bool-cases, some, List, [], ok, fault, unfinished, ltb, ltb_of_le, leb_of_lt, lt→ltb, length, All,
  All-append, All-mono, arith,
}
use multiplexing_server.Codec.Dict.{Dict}
use multiplexing_server.RequestList.{FileRequest}
use multiplexing_server.Response.{error_send, is_traversal, join_path, FileSystem}
use multiplexing_server.Segments.{
  write_pieces, split_range, out_of_range, segment_header, child_send, parent_send,
}
use multiplexing_server.Segments.Plan.{write_pieces-Written, remainder_lem}

out_of_range-outside :
    (r : FileRequest) (st_size : ℕ)
    → st_size < r.offset + r.length
    → r.offset + r.length < 2 ^ 64
    → out_of_range r st_size ≡ true
unfolding out_of_range
out_of_range-outside r st_size h lt =
    let small : (r.offset + r.length) % 2 ^ 64 ≡ r.offset + r.length = omega (arith, h, lt) in
    rw (small, lt→ltb st_size (r.offset + r.length) h)
      (elim (Bool-cases (ltb st_size r.offset)) [ inl e ↦ rw e refl | inr e ↦ rw e refl ])

module _ (malloc_junk junk : ℕ → ℕ) (dict : Dict) (files : FileSystem) (directory file : List ℕ)
    (r : FileRequest) (ht : is_traversal r.file_name ≡ false)
    (hf : files (join_path directory r.file_name) ≡ some file) where
  -- A range of a file that exists that ends past the end of the file, but below 2^64, is refused
  -- with an error message, and nothing is written to the pipe: a connection that has joined the
  -- transfer waits on it.
  pub parent_send_out_of_range :
      (compressed child_compressed before after : ℕ)
      → length file < r.offset + r.length
      → r.offset + r.length < 2 ^ 64
      → (parent_send malloc_junk junk dict compressed files directory r before after
          ≡ ok (error_send, []))
        × (child_send malloc_junk junk dict child_compressed files directory r [] ≡ unfinished)
  unfolding parent_send child_send
  parent_send_out_of_range compressed child_compressed before after h lt =
      (rw (ht, hf) (rw (out_of_range-outside r (length file) h lt) refl), rw ht refl)

  -- With no other connection, a range that starts in the file and whose length is within 20 of
  -- 2^64, so that its end is past 2^64, passes the range check, since its end is computed modulo
  -- 2^64; the buffer for it is then shorter than the fields that are copied into it.
  pub parent_send_wraps :
      (compressed : ℕ)
      → r.offset ≤ length file
      → r.length < 2 ^ 64
      → 2 ^ 64 ≤ r.offset + r.length
      → 2 ^ 64 ≤ 20 + r.length
      → length file < 2 ^ 64
      → parent_send malloc_junk junk dict compressed files directory r 0 0 ≡ fault
  unfolding parent_send out_of_range split_range segment_header
  parent_send_wraps compressed ho hl hw hs hf' =
      let one : r.length / 1 ≡ r.length = omega arith in
      let past : (r.offset + r.length) % 2 ^ 64 ≤ length file = omega arith in
      let short : (20 + r.length) % 2 ^ 64 < 20 = omega arith in
      rw (ht, hf)
        (rw (ltb_of_le r.offset (length file) ho, ltb_of_le _ (length file) past)
          (rw one (rw (leb_of_lt _ 20 short) refl)))

joined_lem : (extra k size : ℕ) → extra * (size + 1) + k * size + k ≡ (extra + k) * (size + 1)
joined_lem extra k size = omega arith

joined_lem' : (extra k size : ℕ) → extra * (size + 1) + k * size ≡ (extra + k) * size + extra
joined_lem' extra k size = omega arith

-- If no connection has joined at the division, and one or more join behind it and before the loops,
-- while the pieces stay below 2^64: each piece on the pipe is as long as the whole range at least, and
-- the piece of the parent starts behind the range.
pub split_range_race :
    (n offset size : ℕ)
    → 0 < n
    → offset + n * (size + 1) < 2 ^ 64
    → let (pieces, parent) = split_range 0 n offset size in
      All (λ p. size ≤ p.length) pieces × (offset + size ≤ parent.offset) × (parent.length ≡ size)
unfolding split_range
split_range_race zero offset size hn h = absurd (omega arith)
split_range_race (suc m) offset size hn h =
    let n = suc m in
    let extra = size % (n + 1) in
    let k = n - extra in
    let few = remainder_lem n size in
    let all_parts : extra + k ≡ n = omega (arith, few) in
    let sum : extra * (size + 1) + k * size + k ≡ n * (size + 1) =
      joined_lem extra k size ∙ ap (λ t. t * (size + 1)) all_parts in
    let one : size / 1 ≡ size = omega arith in
    let wraps : (size + 1) % 2 ^ 64 ≡ size + 1 = omega (arith, h) in
    let middle = offset + extra * (size + 1) in
    let w = write_pieces-Written extra (size + 1) offset (omega (arith, sum)) in
    let v = write_pieces-Written k size middle (omega (arith, sum)) in
    let behind : offset + size ≤ middle + k * size =
      omega (arith, joined_lem' extra k size, ap (λ t. t * size) all_parts) in
    rw (lt→ltb 0 n (omega arith)) (
      rw one (
        rw wraps (
          rw w.last (
            All-append (λ p. size ≤ p.length) (write_pieces extra (size + 1) offset).0
                (write_pieces k size middle).0
                (All-mono (λ p. p.length ≡ size + 1) (λ p. size ≤ p.length)
                  (write_pieces extra (size + 1) offset).0 (λ p e. omega (arith, e)) w.lengths)
                (All-mono (λ p. p.length ≡ size) (λ p. size ≤ p.length)
                  (write_pieces k size middle).0 (λ p e. omega (arith, e)) v.lengths),
            rw v.last behind,
            refl,
          ))))
