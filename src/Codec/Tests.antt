-- ===== src/Codec/Tests.antt =====
-- The dictionary in which each byte is its own code, and the theorems at it.
use multiplexing_server.Base.{
  ℕ, zero, suc, ◌+◌, ◌*◌, ◌≤◌, ◌<◌, ◌≡◌, refl, ap, sym, ◌∙◌, List, [], ◌∷◌, ◌++◌, ok, ◌>>=◌, length,
  arith, get_elem?, some, Option-cases, inl, inr, length-append, fault,
}
use multiplexing_server.Codec.Bits.{bits_from, unpack}
use multiplexing_server.Codec.Dict.{Dict, MNode, IsDict, IsPrefixFree}
use multiplexing_server.Codec.Compress.{compress}
use multiplexing_server.Codec.Compress.Laws.{encode, code_at, compress-Packs, Packs}
use multiplexing_server.Codec.Decompress.{decompress}
use multiplexing_server.Codec.RoundTrip.{decompress-compress, decompress-compress_empty}
use multiplexing_server.Codec.Decompress.Laws.{decompress-Packs}

abbrev pub plain_node : ℕ → MNode
plain_node i = record { byte = i; code_l = 8; code = bits_from 8 i }

unfoldable pub plain_from : ℕ → ℕ → Dict
plain_from zero i = []
plain_from (suc n) i = plain_node i ∷ plain_from n (i + 1)

plain_from_lem :
    (n i j : ℕ) (node : MNode)
    → get_elem? (plain_from n i) j ≡ some node
    → (node ≡ plain_node (i + j)) × (j < n)
unfolding plain_from
plain_from_lem zero i j node h = absurd (cc)
plain_from_lem (suc n) i zero node h =
    ((let e : i + 0 ≡ i = omega arith in rw e (ground arith)), omega arith)
plain_from_lem (suc n) i (suc j) node h =
    let t = plain_from_lem n (i + 1) j node h in
    (t.0 ∙ ap plain_node (omega arith), omega (arith, t.1))

length-plain_from : (n i : ℕ) → length (plain_from n i) ≡ n
unfolding plain_from
length-plain_from zero i = refl
length-plain_from (suc n) i = ap suc (length-plain_from n (i + 1))

unfoldable pub plain : Dict
plain = plain_from 256 0

pub plain_lem :
    (j : ℕ) (node : MNode) → get_elem? plain j ≡ some node → (node ≡ plain_node j) × (j < 256)
unfolding plain
plain_lem j node h =
    let t = plain_from_lem 256 0 j node h in (t.0 ∙ ap plain_node (omega arith), t.1)

pub plain-IsDict : IsDict plain
plain-IsDict = record {
  size = unfold plain in length-plain_from 256 0;
  byte_at = λ i n g. ap (λ (m : MNode). m.byte) (plain_lem i n g).0;
  code_length = λ i n g. rw (plain_lem i n g).0 refl;
  code_bits = λ i n g. rw (plain_lem i n g).0 (omega arith);
}

bits_inj :
    (i j : ℕ) (rest : List ℕ) → i < 256 → j < 256 → bits_from 8 i ++ rest ≡ bits_from 8 j → i ≡ j
bits_inj i j rest hi hj e = ground arith

pub plain-IsPrefixFree : IsPrefixFree plain
plain-IsPrefixFree = record {
  nonempty = λ i n g. rw (plain_lem i n g).0 (λ e. cc);
  apart = λ i j m n rest gm gn e. apart m n rest (plain_lem i m gm) (plain_lem j n gn) e;
}
  where
    apart :
        {i j : ℕ} (m n : MNode) (rest : List ℕ)
        → (m ≡ plain_node i) × (i < 256)
        → (n ≡ plain_node j) × (j < 256)
        → m.code ++ rest ≡ n.code
        → i ≡ j
    apart {i} {j} m n rest p q e =
        bits_inj i j rest p.1 q.1
          (ap (λ (m : MNode). m.code ++ rest) (sym p.0) ∙ e ∙ ap (λ (n : MNode). n.code) q.0)

compress-Packs_example :
    (result : List ℕ) × (compress (λ _. 255) plain (104 ∷ 105 ∷ []) ≡ ok result)
    × Packs (encode plain (104 ∷ 105 ∷ [])) result
unfolding plain plain_from encode code_at
compress-Packs_example =
    compress-Packs (λ _. 255) plain (104 ∷ 105 ∷ []) (λ _. omega arith) plain-IsDict (omega arith)
      (omega arith) (omega arith)

decompress-compress_example :
    (compress (λ _. 255) plain (104 ∷ 105 ∷ []) >>= decompress plain) ≡ ok (104 ∷ 105 ∷ [])
unfolding plain plain_from encode code_at
decompress-compress_example =
    decompress-compress (λ _. 255) plain (104 ∷ 105 ∷ []) (λ _. omega arith) plain-IsDict
      plain-IsPrefixFree (omega arith) (λ e. cc) (omega arith)

plain-code_at : (b : ℕ) → length (code_at plain b) ≤ 8
unfolding code_at plain plain_from
plain-code_at b = elim (Option-cases (get_elem? plain b)) [
  | inl n ↦ rw n (omega arith)
  | inr (node, g) ↦ rw g (rw (plain_lem b node g).0 (omega arith))
]

-- The plain dictionary makes no payload longer.
pub plain-encode : (bs : List ℕ) → length (encode plain bs) ≤ 8 * length bs
unfolding encode
plain-encode [] = omega arith
plain-encode (b ∷ bs) =
    omega
      (arith, length-append (code_at plain b) (encode plain bs), plain-code_at b, plain-encode bs)

decompress-compress_empty_run :
    ((compress (λ _. 7) plain [] >>= decompress plain) ≡ ok (0 ∷ []))
    × (decompress plain [] ≡ fault)
decompress-compress_empty_run = decompress-compress_empty (λ _. 7) plain

decompress-Packs_run : decompress plain (104 ∷ 105 ∷ 0 ∷ []) ≡ ok (104 ∷ 105 ∷ [])
unfolding plain plain_from encode code_at unpack
decompress-Packs_run =
    decompress-Packs plain (104 ∷ 105 ∷ []) (104 ∷ 105 ∷ 0 ∷ []) plain-IsDict plain-IsPrefixFree
      (omega arith) (λ e. cc) (omega arith)
      (record {
        body = 104 ∷ 105 ∷ [];
        fill = 0;
        is_result = refl;
        byte_sized = omega arith;
        body_bits = refl;
        fill_lt = omega arith;
      })
