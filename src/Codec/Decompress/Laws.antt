-- ===== src/Codec/Decompress/Laws.antt =====
-- The scan over the bits of a payload, and what `decompress` makes of a packed one.
use multiplexing_server.Base.{
  ℕ, zero, suc, ◌+◌, ◌-◌, ◌*◌, ◌%◌, ◌^◌, ◌≤◌, ◌<◌, ◌≡◌, ◌≢◌, refl, ap, sym, ◌∙◌, List, [], ◌∷◌,
  ◌++◌, append_assoc, append-nil, arith, some, none, ok, fault, ==_of_ne, length, length-append,
  length-replicate, replicate, All, get_elem?, get_elem?-of_lt, get_elem?-length, All-append,
  length_of_ne_nil,
}
use multiplexing_server.Codec.Bits.{
  get_bit, get_bit_lem, bits_from, unpack, length-unpack, unpack-append,
}
use multiplexing_server.Codec.Dict.{Dict, MNode, IsDict, IsPrefixFree, IsByte}
use multiplexing_server.Codec.Compress.Laws.{encode, code_at, code_at_lem, Packs}
use multiplexing_server.Codec.Decompress.{
  find_code, Scan, Progress, running, returned, take_bit, check_end, scan_byte, scan_bytes,
  decompress,
}
use multiplexing_server.Codec.Decompress.Codes.{find_code_whole, find_code_part}

module _ (dict : Dict) (total : ℕ) where
  -- The two loops as one over the bits.
  scan_bits : List ℕ → Progress → Progress
  scan_bits [] p = p
  scan_bits (b ∷ bs) (returned rep) = returned rep
  scan_bits (b ∷ bs) (running s) = scan_bits bs (check_end dict total (take_bit dict total b s))

  scan_bits-returned : (bs rep : List ℕ) → scan_bits bs (returned rep) ≡ returned rep
  unfolding scan_bits
  scan_bits-returned [] rep = refl
  scan_bits-returned (b ∷ bs) rep = refl

  scan_bits-append :
      (xs ys : List ℕ) (p : Progress) → scan_bits (xs ++ ys) p ≡ scan_bits ys (scan_bits xs p)
  unfolding scan_bits
  scan_bits-append [] ys p = refl
  scan_bits-append (x ∷ xs) ys (returned rep) = sym (scan_bits-returned ys rep)
  scan_bits-append (x ∷ xs) ys (running s) = scan_bits-append xs ys _

  scan_byte-eq :
      (b : ℕ)
      → b < 256
      → (j : ℕ) (p : Progress) → j ≤ 8
      → scan_byte dict total b j p ≡ scan_bits (bits_from j b) p
  unfolding scan_bits scan_byte
  scan_byte-eq b hb zero p h = refl
  scan_byte-eq b hb (suc j) (returned rep) h = refl
  scan_byte-eq b hb (suc j) (running s) h =
      rw (get_bit_lem b j hb (omega arith)) (scan_byte-eq b hb j _ (omega arith))

  scan_bytes-eq :
      (bs : List ℕ) (p : Progress)
      → All IsByte bs
      → scan_bytes dict total bs p ≡ scan_bits (unpack bs) p
  unfolding scan_bytes unpack scan_bits
  scan_bytes-eq [] p h = refl
  scan_bytes-eq (b ∷ bs) p h =
      scan_bytes-eq bs _ h.1
      ∙ ap (scan_bits (unpack bs)) (scan_byte-eq b h.0 8 p (omega arith))
      ∙ sym (scan_bits-append (bits_from 8 b) (unpack bs) p)

abbrev scan_at : List ℕ → List ℕ → ℕ → Scan
scan_at buffer rep k = record { buffer = buffer; count = length buffer; rep = rep; curr_bits = k }

module _ (dict : Dict) (is_dict : IsDict dict) (free : IsPrefixFree dict) (total : ℕ)
    (total_lt : total < 2 ^ 31) where
  take_bit-part :
      (bit : ℕ) (front rep : List ℕ) (k : ℕ)
      → find_code dict (length (front ++ bit ∷ [])) (front ++ bit ∷ []) ≡ none
      → suc k < total
      → check_end dict total (take_bit dict total bit (scan_at front rep k))
        ≡ running (scan_at (front ++ bit ∷ []) rep (k + 1))
  unfolding take_bit check_end
  take_bit-part bit front rep k h lt =
      let e : length (front ++ bit ∷ []) ≡ length front + 1 =
        omega (arith, length-append front (bit ∷ [])) in
      ground (arith, rw e at h)

  take_bit-whole :
      (bit b : ℕ) (front rep : List ℕ) (k : ℕ)
      → find_code dict (length (front ++ bit ∷ [])) (front ++ bit ∷ []) ≡ some b
      → take_bit dict total bit (scan_at front rep k) ≡ scan_at [] (rep ++ b ∷ []) (k + 1)
  unfolding take_bit
  take_bit-whole bit b front rep k h =
      let e : length (front ++ bit ∷ []) ≡ length front + 1 =
        omega (arith, length-append front (bit ∷ [])) in
      ground (arith, rw e at h)

  module _ (j : ℕ) (node : MNode) (at : get_elem? dict j ≡ some node) where
    -- The rest of a code completes it: its byte is put out, and the end is looked for.
    scan_bits-code :
        (back front rest rep : List ℕ) (k : ℕ)
        → front ++ back ≡ node.code
        → back ≢ []
        → k + length back ≤ total
        → scan_bits dict total (back ++ rest) (running (scan_at front rep k))
          ≡ scan_bits dict total rest
              (check_end dict total (scan_at [] (rep ++ j ∷ []) (k + length back)))
    unfolding scan_bits
    scan_bits-code [] front rest rep k e ne h = absurd (ne refl)
    scan_bits-code (x ∷ []) front rest rep k e ne h =
        ap (λ s. scan_bits dict total rest (check_end dict total s))
          (take_bit-whole x j front rep k (rw e (find_code_whole dict is_dict free j node at)))
    scan_bits-code (x ∷ y ∷ back) front rest rep k e ne h =
        let e' : (front ++ x ∷ []) ++ y ∷ back ≡ node.code =
          append_assoc front (x ∷ []) (y ∷ back) ∙ e in
        ap (scan_bits dict total ((y ∷ back) ++ rest)) (
          take_bit-part x front rep k
            (find_code_part dict is_dict free j node at (front ++ x ∷ []) (y ∷ back) e' (λ q. cc))
            (omega arith))
        ∙ scan_bits-code (y ∷ back) (front ++ x ∷ []) rest rep (k + 1) e' (λ q. cc) (omega arith)
        ∙ ap (λ m. scan_bits dict total rest (check_end dict total (scan_at [] (rep ++ j ∷ []) m)))
            (omega arith)

  code_at-ne-nil : (b : ℕ) → b < 256 → code_at dict b ≢ []
  code_at-ne-nil b h =
      let (node, g) = get_elem?-of_lt dict b (rw is_dict.size h) in
      rw (code_at_lem dict b node g) (free.nonempty b node g)

  scan_bits-code_at :
      (b : ℕ) (rest rep : List ℕ) (k : ℕ)
      → b < 256
      → k + length (code_at dict b) ≤ total
      → scan_bits dict total (code_at dict b ++ rest) (running (scan_at [] rep k))
        ≡ scan_bits dict total rest
            (check_end dict total (scan_at [] (rep ++ b ∷ []) (k + length (code_at dict b))))
  scan_bits-code_at b rest rep k hb h =
      let (node, g) = get_elem?-of_lt dict b (rw is_dict.size hb) in
      let e = code_at_lem dict b node g in
      rw e
        (scan_bits-code b node g node.code [] rest rep k refl (free.nonempty b node g) (rw e at h))

  check_end-total : (rep : List ℕ) → check_end dict total (scan_at [] rep total) ≡ returned rep
  unfolding check_end
  check_end-total rep = ground arith

  check_end-lt :
      (rep : List ℕ) (k : ℕ)
      → k < total
      → check_end dict total (scan_at [] rep k) ≡ running (scan_at [] rep k)
  unfolding check_end
  check_end-lt rep k h = ground arith

  encode-length-pos : (b : ℕ) (bs : List ℕ) → b < 256 → 0 < length (encode dict (b ∷ bs))
  unfolding encode
  encode-length-pos b bs h = omega (
    arith,
    length-append (code_at dict b) (encode dict bs),
    length_of_ne_nil (code_at dict b) (code_at-ne-nil b h),
  )

  -- From the start of a code on, a run over the codes of `data'` ends at their last bit.
  scan_bits-encode :
      (data' rest rep : List ℕ) (k : ℕ)
      → All IsByte data'
      → data' ≢ []
      → k + length (encode dict data') ≡ total
      → scan_bits dict total (encode dict data' ++ rest) (running (scan_at [] rep k))
        ≡ returned (rep ++ data')
  unfolding encode
  scan_bits-encode [] rest rep k h ne e = absurd (ne refl)
  scan_bits-encode (b ∷ []) rest rep k h ne e =
      let n : k + length (code_at dict b) ≡ total =
        omega (arith, length-append (code_at dict b) []) in
      rw append-nil (
        scan_bits-code_at b rest rep k h.0 (omega arith)
        ∙ ap (scan_bits dict total rest) (rw n (check_end-total (rep ++ b ∷ [])))
        ∙ scan_bits-returned dict total rest (rep ++ b ∷ []))
  scan_bits-encode (b ∷ c ∷ data') rest rep k h ne e =
      let n = length-append (code_at dict b) (encode dict (c ∷ data')) in
      let pos = encode-length-pos c data' h.1.0 in
      ap (λ l. scan_bits dict total l (running (scan_at [] rep k)))
        (append_assoc (code_at dict b) (encode dict (c ∷ data')) rest)
      ∙ scan_bits-code_at b (encode dict (c ∷ data') ++ rest) rep k h.0 (omega arith)
      ∙ ap (scan_bits dict total (encode dict (c ∷ data') ++ rest))
          (check_end-lt (rep ++ b ∷ []) (k + length (code_at dict b)) (omega arith))
      ∙ scan_bits-encode (c ∷ data') rest (rep ++ b ∷ []) (k + length (code_at dict b)) h.1
          (λ q. cc) (omega arith)
      ∙ ap returned (append_assoc rep (b ∷ []) (c ∷ data'))

-- The last byte is the last.
get_elem?-last {ℓ} :
    {A : Type ℓ} (xs : List A) (a : A)
    → get_elem? (xs ++ a ∷ []) (length (xs ++ a ∷ []) - 1) ≡ some a
get_elem?-last xs a =
    let e : length (xs ++ a ∷ []) - 1 ≡ length xs = omega (arith, length-append xs (a ∷ [])) in
    rw e (get_elem?-length xs a)

-- Over a prefix-free dictionary, a packed payload of one byte at least, whose codes have fewer
-- than 2^31 bits in all, is unpacked.
pub decompress-Packs :
    (dict : Dict) (data' result : List ℕ)
    → IsDict dict
    → IsPrefixFree dict
    → All IsByte data'
    → data' ≢ []
    → length (encode dict data') < 2 ^ 31
    → Packs (encode dict data') result
    → decompress dict result ≡ ok data'
unfolding decompress
decompress-Packs dict data' result d f h ne lt p =
    let bits = encode dict data' in
    let input = p.body ++ p.fill ∷ [] in
    let total : ℕ = ((length input - 1) * 8 + 2 ^ 64 - p.fill) % 2 ^ 32 in
    let size : total ≡ length bits = omega (
      arith,
      length-append p.body (p.fill ∷ []),
      length-unpack p.body,
      ap length p.body_bits,
      length-append bits (replicate {A = ℕ} p.fill 0),
      length-replicate {A = ℕ} p.fill 0,
      p.fill_lt,
    ) in
    let bytes : All IsByte input =
      All-append IsByte p.body (p.fill ∷ []) p.byte_sized (omega (arith, p.fill_lt), tt) in
    let tail = replicate {A = ℕ} p.fill 0 ++ unpack (p.fill ∷ []) in
    let all_bits : unpack input ≡ bits ++ tail =
      unpack-append p.body (p.fill ∷ [])
      ∙ ap (λ l. l ++ unpack (p.fill ∷ [])) p.body_bits
      ∙ append_assoc bits (replicate p.fill 0) (unpack (p.fill ∷ [])) in
    let run : scan_bytes dict total input (running (scan_at [] [] 0)) ≡ returned data' =
      scan_bytes-eq dict total input (running (scan_at [] [] 0)) bytes
      ∙ ap (λ l. scan_bits dict total l (running (scan_at [] [] 0))) all_bits
      ∙ scan_bits-encode dict d f total (omega (arith, lt, size)) data' tail [] 0 h ne
          (omega (arith, size)) in
    rw (p.is_result, get_elem?-last p.body p.fill) (rw run refl)

take_bit-curr_bits :
    (dict : Dict) (total bit : ℕ) (s : Scan)
    → (take_bit dict total bit s).curr_bits ≡ s.curr_bits + 1
unfolding take_bit
take_bit-curr_bits dict total bit s = ground arith

-- With no bits announced the end is not found before the counter has gone round.
scan_byte_zero :
    (dict : Dict) (b j : ℕ) (s : Scan)
    → s.curr_bits + j < 2 ^ 32
    → (s' : Scan) × (scan_byte dict 0 b j (running s) ≡ running s')
unfolding scan_byte check_end
scan_byte_zero dict b zero s h = (s, refl)
scan_byte_zero dict b (suc j) s h =
    let s' = take_bit dict 0 (get_bit b j) s in
    let e = take_bit-curr_bits dict 0 (get_bit b j) s in
    rw (==_of_ne (s'.curr_bits % 2 ^ 32) 0 (omega (arith, e)))
      (scan_byte_zero dict b j s' (omega (arith, e)))

pub decompress_zero_byte : (dict : Dict) → decompress dict (0 ∷ []) ≡ ok (0 ∷ [])
unfolding decompress scan_bytes
decompress_zero_byte dict =
    let (s, e) = scan_byte_zero dict 0 8 (scan_at [] [] 0) (omega arith) in rw e refl

pub decompress-nil : (dict : Dict) → decompress dict [] ≡ fault
unfolding decompress
decompress-nil dict = refl
