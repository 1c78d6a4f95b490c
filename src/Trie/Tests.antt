-- ===== src/Trie/Tests.antt =====
-- A dictionary with a short code for the byte 0, and the theorems of the trie at it.
use multiplexing_server.Base.{
  Bool, true, ltb, ◌&&◌, ℕ, zero, suc, ◌+◌, ◌*◌, ◌%◌, ◌<◌, ◌≡◌, ◌≢◌, refl, ap, sym, ◌∙◌, inl, some,
  List, [], ◌∷◌, ◌++◌, ok, ◌>>=◌, length, get_elem?, All, append-nil, arith,
}
use multiplexing_server.Codec.Bits.{bits_from, unpack}
use multiplexing_server.Codec.Dict.{Dict, MNode, create_map, IsByte, IsDict, IsPrefixFree}
use multiplexing_server.Codec.Dict.Laws.{
  dict_bits, nodes_from, IsCode, create_map-dict_bits, create_map-IsDict,
}
use multiplexing_server.Codec.Compress.Laws.{encode, code_at}
use multiplexing_server.Trie.{
  create_trie_node, insert_trie, CompressionMap, create_map_optimized, compress_optimized,
  decompress_optimized,
}
use multiplexing_server.Trie.Insert.{Inserted, insert_trie-Inserted}
use multiplexing_server.Trie.Build.{IsMapOf, create_map_optimized-create_map}
use multiplexing_server.Trie.Writing.{Compressed, compress_optimized-Compressed}
use multiplexing_server.Trie.RoundTrip.{decompress_optimized-shorter}

insert_trie-Inserted_example :
    Inserted create_trie_node (0 ∷ 1 ∷ []) 7 (insert_trie (0 ∷ 1 ∷ []) 7 create_trie_node)
insert_trie-Inserted_example =
    insert_trie-Inserted (0 ∷ 1 ∷ []) 7 create_trie_node (omega arith, (omega arith, tt)) tt

-- One bit for the byte 0, and nine for the others.
abbrev code_of : ℕ → List ℕ
code_of zero = 0 ∷ []
code_of (suc i) = 1 ∷ bits_from 8 (suc i)

abbrev code_node : ℕ → MNode
code_node i = record { byte = i; code_l = length (code_of i); code = code_of i }

unfoldable codes_from : ℕ → ℕ → List (List ℕ)
codes_from zero i = []
codes_from (suc n) i = code_of i ∷ codes_from n (i + 1)

unfoldable codes : List (List ℕ)
codes = codes_from 256 0

abbrev short : Dict
short = nodes_from 0 codes

-- Bits, eight to a byte.
pack : List ℕ → List ℕ
pack (a ∷ b ∷ c ∷ d ∷ e ∷ f ∷ g ∷ h ∷ bits) =
    (128 * a + 64 * b + 32 * c + 16 * d + 8 * e + 4 * f + 2 * g + h) ∷ pack bits
pack bits = []

file : List ℕ
unfolding pack dict_bits codes codes_from
file = pack (dict_bits codes)

file-unpack : unpack file ≡ dict_bits codes
unfolding file pack dict_bits codes codes_from unpack
file-unpack = refl

all_bytes : List ℕ → Bool
all_bytes [] = true
all_bytes (b ∷ bs) = ltb b 256 && all_bytes bs

all_bytes_sound : (bs : List ℕ) → all_bytes bs ≡ true → All IsByte bs
unfolding all_bytes
all_bytes_sound [] h = tt
all_bytes_sound (b ∷ bs) h = (ground arith, all_bytes_sound bs (ground arith))

file-IsByte : All IsByte file
file-IsByte = all_bytes_sound file checked
  where
    checked : all_bytes file ≡ true
    checked =
        unfold all_bytes in
        unfold file in unfold pack in unfold dict_bits in unfold codes in unfold codes_from in refl

codes_from-IsCode : (n i : ℕ) → All IsCode (codes_from n i)
unfolding codes_from
codes_from-IsCode zero i = tt
codes_from-IsCode (suc n) i = (below i, codes_from-IsCode n (i + 1))
  where
    below : (i : ℕ) → length (code_of i) < 256
    below zero = omega arith
    below (suc i) = omega arith

length-codes_from : (n i : ℕ) → length (codes_from n i) ≡ n
unfolding codes_from
length-codes_from zero i = refl
length-codes_from (suc n) i = ap suc (length-codes_from n (i + 1))

short_read : create_map (some file) ≡ ok short
unfolding codes
short_read =
    create_map-dict_bits file codes [] file-IsByte (length-codes_from 256 0)
      (codes_from-IsCode 256 0) (file-unpack ∙ sym (append-nil (dict_bits codes)))

short-IsDict : IsDict short
short-IsDict = create_map-IsDict file short file-IsByte short_read

get_elem?-nodes_from :
    (curr : ℕ) (cs : List (List ℕ)) (j : ℕ) (n : MNode)
    → get_elem? (nodes_from curr cs) j ≡ some n
    → get_elem? cs j ≡ some n.code
unfolding nodes_from
get_elem?-nodes_from curr [] j n e = absurd (cc)
get_elem?-nodes_from curr (c ∷ cs) zero n e = ground arith
get_elem?-nodes_from curr (c ∷ cs) (suc j) n e = get_elem?-nodes_from ((curr + 1) % 256) cs j n e

get_elem?-codes_from :
    (n i j : ℕ) (c : List ℕ)
    → get_elem? (codes_from n i) j ≡ some c
    → (c ≡ code_of (i + j)) × (j < n)
unfolding codes_from
get_elem?-codes_from zero i j c e = absurd (cc)
get_elem?-codes_from (suc n) i zero c e =
    let z : i + 0 ≡ i = omega arith in (rw z (ground arith), omega arith)
get_elem?-codes_from (suc n) i (suc j) c e =
    let t = get_elem?-codes_from n (i + 1) j c e in
    (t.0 ∙ ap code_of (omega arith), omega (arith, t.1))

short_code : (j : ℕ) (n : MNode) → get_elem? short j ≡ some n → (n.code ≡ code_of j) × (j < 256)
unfolding codes
short_code j n e =
    let t = get_elem?-codes_from 256 0 j n.code (get_elem?-nodes_from 0 codes j n e) in
    (t.0 ∙ ap code_of (omega arith), t.1)

code_of-ne-nil : (i : ℕ) → code_of i ≢ []
code_of-ne-nil zero e = cc
code_of-ne-nil (suc i) e = cc

code_of_apart :
    (i j : ℕ) (rest : List ℕ) → i < 256 → j < 256 → code_of i ++ rest ≡ code_of j → i ≡ j
code_of_apart zero zero rest hi hj e = refl
code_of_apart zero (suc j) rest hi hj e = absurd (cc)
code_of_apart (suc i) zero rest hi hj e = absurd (cc)
code_of_apart (suc i) (suc j) rest hi hj e = ground arith

short-IsPrefixFree : IsPrefixFree short
short-IsPrefixFree = record {
  nonempty = λ i n g. rw (short_code i n g).0 (code_of-ne-nil i);
  apart = λ i j m n rest g h e.
      let p = short_code i m g in
      let q = short_code j n h in
      code_of_apart i j rest p.1 q.1 (ap (λ l. l ++ rest) (sym p.0) ∙ e ∙ q.0);
}

create_map_optimized-create_map_example :
    (m : CompressionMap) × (create_map_optimized (λ _. 7) (some file) ≡ ok m) × IsMapOf short m
create_map_optimized-create_map_example =
    create_map_optimized-create_map (λ _. 7) file short file-IsByte short_read short-IsPrefixFree

-- The map that is read.
short_map :
    (m : CompressionMap) × (create_map_optimized (λ _. 7) (some file) ≡ ok m) × IsMapOf short m
short_map =
    create_map_optimized-create_map (λ _. 7) file short file-IsByte short_read short-IsPrefixFree

abbrev zeros : List ℕ
zeros = 0 ∷ 0 ∷ 0 ∷ 0 ∷ 0 ∷ 0 ∷ 0 ∷ 0 ∷ []

zeros_coded : encode short zeros ≡ zeros
unfolding encode code_at nodes_from codes codes_from
zeros_coded = refl

compress_optimized-Compressed_run :
    (result : List ℕ) × (compress_optimized short_map.0 zeros ≡ ok result)
    × Compressed (encode short zeros) zeros result
compress_optimized-Compressed_run =
    compress_optimized-Compressed short short_map.0 zeros short-IsDict short_map.2 (omega arith)
      (λ e. cc) (omega (arith, ap length zeros_coded))

decompress_optimized-shorter_example :
    (compress_optimized short_map.0 zeros >>= λ result.
    ok (decompress_optimized short_map.0 result))
    ≡ ok zeros
decompress_optimized-shorter_example =
    decompress_optimized-shorter short short_map.0 short-IsDict short-IsPrefixFree short_map.2 zeros
      (omega arith) (λ e. cc) (omega (arith, ap length zeros_coded))
      (omega (arith, ap length zeros_coded)) (inl (omega (arith, ap length zeros_coded)))
