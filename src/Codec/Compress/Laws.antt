-- ===== src/Codec/Compress/Laws.antt =====
-- What `compress` returns, in terms of the bits of its payload.
use mathlib.Core.List.{reverse-append, reverse-reverse, reverse-cons}
use native.Mathlib.Numerals.{add-one}
use multiplexing_server.Base.{
  ℕ, zero, suc, ◌+◌, ◌-◌, ◌%◌, ◌^◌, ◌≤◌, ◌<◌, ◌≡◌, ◌≢◌, refl, ap, ap₂, sym, ◌∙◌, inl, List, [], ◌∷◌,
  ◌++◌, reverse, append_assoc, append-nil, arith, some, none, ok, Outcome, length, length-append,
  lt→ltb, All, All-get_elem?, All-reverse, drop, drop_all, drop-get_elem?, get_elem?,
  get_elem?-of_lt, replicate, reverse-replicate,
}
use multiplexing_server.Codec.Bits.{backwards, unpack, reverse-backwards}
use multiplexing_server.Codec.Dict.{Dict, MNode, IsDict, IsPrefixFree, IsBit, IsByte}
use multiplexing_server.Codec.Compress.{Output, put_bit, put_code, put_bytes, compress}
use multiplexing_server.Codec.Compress.Padding.{padded, padded_lem}
use multiplexing_server.Codec.Compress.Written.{written, IsValid, put_bit-IsValid, put_bit-written}

-- The codes of a payload, one after another.
unfoldable pub code_at : Dict → ℕ → List ℕ
code_at dict b = elim (get_elem? dict b) [ none ↦ [] | some node ↦ node.code ]

pub code_at_lem :
    (dict : Dict) (b : ℕ) (node : MNode) → get_elem? dict b ≡ some node → code_at dict b ≡ node.code
unfolding code_at
code_at_lem dict b node e = ground arith

unfoldable pub encode : Dict → List ℕ → List ℕ
encode dict [] = []
encode dict (b ∷ bs) = code_at dict b ++ encode dict bs

pub encode-cons :
    (dict : Dict) (b : ℕ) (bs : List ℕ) → encode dict (b ∷ bs) ≡ code_at dict b ++ encode dict bs
unfolding encode
encode-cons dict b bs = refl

length_pos : (xs : List ℕ) → xs ≢ [] → 0 < length xs
length_pos [] h = absurd (h refl)
length_pos (x ∷ xs) h = omega arith

-- `r` is a normal result that has `bits` appended to what `o` holds.
record Wrote (o : Output) (bits : List ℕ) (r : Outcome Output) : Type 0 where
  out : Output
  returns : r ≡ ok out
  valid : IsValid out
  appended : written out ≡ reverse bits ++ written o
  count : out.total_count ≡ o.total_count + length bits

Wrote-trans :
    {o : Output} {xs ys : List ℕ} {r r' : Outcome Output} (w : Wrote o xs r)
    → Wrote w.out ys r'
    → Wrote o (xs ++ ys) r'
Wrote-trans {o} {xs} {ys} w w' = record {
  out = w'.out;
  returns = w'.returns;
  valid = w'.valid;
  appended = rw (w'.appended, w.appended, reverse-append, append_assoc) refl;
  count = omega (arith, w.count, w'.count, length-append xs ys);
}

put_bit-count :
    (junk : ℕ → ℕ) (bit : ℕ) (o : Output) → (put_bit junk bit o).total_count ≡ o.total_count + 1
unfolding put_bit
put_bit-count junk bit o = refl

module _ (junk : ℕ → ℕ) (junk_byte : (i : ℕ) → junk i < 256) where
  put_code-Wrote :
      (code : List ℕ) (n j : ℕ) (o : Output)
      → All IsBit code
      → j + n ≡ length code
      → IsValid o
      → Wrote o (drop j code) (put_code junk code n j o)
  unfolding put_code
  put_code-Wrote code zero j o hc e v = record {
    out = o;
    returns = refl;
    valid = v;
    appended = rw (drop_all j code (omega arith)) refl;
    count = rw (drop_all j code (omega arith)) (omega arith);
  }
  put_code-Wrote code (suc n) j o hc e v =
      let (bit, g) = get_elem?-of_lt code j (omega arith) in
      let hbit = All-get_elem? IsBit code j hc g in
      let rest =
        put_code-Wrote code n (suc j) (put_bit junk bit o) hc (omega arith)
          (put_bit-IsValid junk junk_byte bit o hbit v) in
      rw (g, add-one, drop-get_elem? code j g)
        (record {
          out = rest.out;
          returns = rest.returns;
          valid = rest.valid;
          appended =
              rw
                (
                  rest.appended,
                  put_bit-written junk junk_byte bit o hbit v,
                  reverse-cons,
                  append_assoc,
                )
                refl;
          count = omega (arith, rest.count, put_bit-count junk bit o);
        })

  module _ (dict : Dict) (is_dict : IsDict dict) where
    put_bytes-Wrote :
        (data' : List ℕ) (o : Output)
        → All IsByte data'
        → IsValid o
        → Wrote o (encode dict data') (put_bytes junk dict data' o)
    unfolding put_bytes encode
    put_bytes-Wrote [] o h v = record {
      out = o;
      returns = refl;
      valid = v;
      appended = refl;
      count = omega arith;
    }
    put_bytes-Wrote (b ∷ bs) o h v =
        let (node, g) = get_elem?-of_lt dict b (rw is_dict.size h.0) in
        let first =
          put_code-Wrote node.code node.code_l 0 o (is_dict.code_bits b node g)
            (omega (arith, is_dict.code_length b node g)) v in
        let rest = put_bytes-Wrote bs first.out h.1 first.valid in
        rw (g, first.returns, encode, code_at_lem dict b node g) (Wrote-trans first rest)

-- The payload of `compress`: the bits of the codes, zeros up to a whole byte, and a last byte that
-- counts these.
pub record Packs (bits result : List ℕ) : Type 0 where
  pub body : List ℕ
  pub fill : ℕ
  pub is_result : result ≡ body ++ fill ∷ []
  pub byte_sized : All IsByte body
  pub body_bits : unpack body ≡ bits ++ replicate fill 0
  pub fill_lt : fill < 8

finish-Packs :
    (o : Output) (bits : List ℕ)
    → IsValid o
    → written o ≡ reverse bits
    → Packs bits (reverse (((8 - o.total_count % 8) % 8) ∷ padded o.curr_bit o.bytes))
finish-Packs o bits v e =
    let p = padded_lem o.curr_bit o.bytes v.low v.high v.in_work v.byte_sized in
    let c = o.curr_bit % 8 in
    record {
      body = reverse (padded o.curr_bit o.bytes);
      fill = c;
      is_result =
          reverse-cons ((8 - o.total_count % 8) % 8) (padded o.curr_bit o.bytes)
          ∙ ap (λ f. reverse (padded o.curr_bit o.bytes) ++ f ∷ []) (omega (arith, v.counted));
      byte_sized = All-reverse IsByte _ p.1;
      body_bits =
          sym (reverse-backwards (padded o.curr_bit o.bytes))
          ∙ ap reverse (p.0 ∙ ap (◌++◌ (replicate c 0)) e)
          ∙ reverse-append (replicate c 0) (reverse bits)
          ∙ ap₂ ◌++◌ (reverse-reverse bits) (reverse-replicate c 0);
      fill_lt = omega arith;
    }

-- A payload is not longer than its codes together, if none of them is empty.
pub length-encode :
    (dict : Dict) (input : List ℕ)
    → IsDict dict
    → IsPrefixFree dict
    → All IsByte input
    → length input ≤ length (encode dict input)
unfolding encode
length-encode dict [] d f h = omega arith
length-encode dict (b ∷ bs) d f h =
    let (n, g) = get_elem?-of_lt dict b (rw d.size h.0) in
    let some_bit : 0 < length (code_at dict b) =
      rw (code_at_lem dict b n g) (length_pos n.code (f.nonempty b n g)) in
    omega (
      arith,
      some_bit,
      length-append (code_at dict b) (encode dict bs),
      length-encode dict bs d f h.1,
    )

-- With a dictionary of 256 codes, `compress` neither faults nor exits on fewer than 2^31 bytes whose
-- codes have fewer than 2^31 bits in all, so that none of its counters overflows. Its result packs the
-- codes of the payload, padded with zero bits, and the number of those, whatever bytes `realloc` leaves
-- in fresh memory.
pub compress-Packs :
    (junk : ℕ → ℕ) (dict : Dict) (input : List ℕ)
    → ((i : ℕ) → junk i < 256)
    → IsDict dict
    → All IsByte input
    → length input < 2 ^ 31
    → length (encode dict input) < 2 ^ 31
    → (result : List ℕ) × (compress junk dict input ≡ ok result) × Packs (encode dict input) result
unfolding compress backwards
compress-Packs junk dict input hj hd hi few lt =
    let start : Output = record { bytes = []; curr_bit = 8; total_count = 0 } in
    let v : IsValid start = record {
      low = omega arith;
      high = omega arith;
      in_work = inl refl;
      byte_sized = tt;
      counted = refl;
    } in
    let w = put_bytes-Wrote junk hj dict hd input start hi v in
    let bounded : w.out.total_count < 2 ^ 31 = omega (arith, w.count, lt) in
    (
      _,
      rw (lt→ltb (length input) (2 ^ 31) few)
          (rw w.returns (rw (lt→ltb w.out.total_count (2 ^ 31) bounded) refl)),
      finish-Packs w.out (encode dict input) w.valid (w.appended ∙ append-nil _),
    )

pub compress-nil : (junk : ℕ → ℕ) (dict : Dict) → compress junk dict [] ≡ ok (0 ∷ [])
unfolding compress put_bytes
compress-nil junk dict = refl
