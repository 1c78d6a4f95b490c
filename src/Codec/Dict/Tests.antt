-- ===== src/Codec/Dict/Tests.antt =====
-- A dictionary file in which the code of each byte is the byte itself, and the theorems at it.
use multiplexing_server.Base.{
  ℕ, zero, suc, ◌+◌, ◌≤◌, ◌≡◌, refl, ap, sym, ◌∙◌, some, List, [], ◌∷◌, ◌++◌, append-nil, ok,
  length, All, arith,
}
use multiplexing_server.Codec.Bits.{bits_from, unpack}
use multiplexing_server.Codec.Dict.{create_map, IsByte, IsDict}
use multiplexing_server.Codec.Dict.Laws.{
  dict_bits, nodes_from, IsCode, create_map-dict_bits, create_map-IsDict,
}

codes_from : ℕ → ℕ → List (List ℕ)
codes_from zero i = []
codes_from (suc n) i = bits_from 8 i ∷ codes_from n (i + 1)

file_from : ℕ → ℕ → List ℕ
file_from zero i = []
file_from (suc n) i = 8 ∷ i ∷ file_from n (i + 1)

length-codes_from : (n i : ℕ) → length (codes_from n i) ≡ n
unfolding codes_from
length-codes_from zero i = refl
length-codes_from (suc n) i = ap suc (length-codes_from n (i + 1))

codes_from-IsCode : (n i : ℕ) → All IsCode (codes_from n i)
unfolding codes_from
codes_from-IsCode zero i = tt
codes_from-IsCode (suc n) i = (omega arith, codes_from-IsCode n (i + 1))

file_from-IsByte : (n i : ℕ) → n + i ≤ 256 → All IsByte (file_from n i)
unfolding file_from
file_from-IsByte zero i h = tt
file_from-IsByte (suc n) i h =
    (omega arith, (omega arith, file_from-IsByte n (i + 1) (omega arith)))

unpack-file_from : (n i : ℕ) → unpack (file_from n i) ≡ dict_bits (codes_from n i)
unfolding file_from codes_from unpack dict_bits
unpack-file_from zero i = refl
unpack-file_from (suc n) i =
    ap (λ l. bits_from 8 8 ++ (bits_from 8 i ++ l)) (unpack-file_from n (i + 1))

create_map-dict_bits_example :
    create_map (some (file_from 256 0)) ≡ ok (nodes_from 0 (codes_from 256 0))
create_map-dict_bits_example =
    create_map-dict_bits (file_from 256 0) (codes_from 256 0) []
      (file_from-IsByte 256 0 (omega arith)) (length-codes_from 256 0) (codes_from-IsCode 256 0)
      (unpack-file_from 256 0 ∙ sym (append-nil (dict_bits (codes_from 256 0))))

plain_read : create_map (some (file_from 256 0)) ≡ ok (nodes_from 0 (codes_from 256 0))
plain_read =
    create_map-dict_bits (file_from 256 0) (codes_from 256 0) []
      (file_from-IsByte 256 0 (omega arith)) (length-codes_from 256 0) (codes_from-IsCode 256 0)
      (unpack-file_from 256 0 ∙ sym (append-nil (dict_bits (codes_from 256 0))))

create_map-IsDict_example : IsDict (nodes_from 0 (codes_from 256 0))
create_map-IsDict_example =
    create_map-IsDict (file_from 256 0) (nodes_from 0 (codes_from 256 0))
      (file_from-IsByte 256 0 (omega arith)) plain_read
