-- ===== src/Optimized/Codec/Tests.antt =====
-- A dictionary file of two lines, and the theorems of the optimised codec with the plain dictionary.
use multiplexing_server.Base.{
  ℕ, ◌≡◌, refl, none, some, List, [], ◌∷◌, ◌++◌, ok, ◌>>=◌, length, take, All, arith,
}
use multiplexing_server.Codec.Dict.{Dict}
use multiplexing_server.Codec.Compress.{compress}
use multiplexing_server.Codec.Compress.Laws.{encode, code_at}
use multiplexing_server.Codec.Filling.Marked.{Marked}
use multiplexing_server.Codec.Tests.{plain, plain_from, plain-IsDict, plain-IsPrefixFree}
use multiplexing_server.Optimized.Codec.{
  create_map_optimized, compress_optimized, decompress_optimized, read_lines, line_step, end_line,
  line_node, space_from, number_of,
}
use multiplexing_server.Optimized.Codec.Lines.{HasCode, create_map_optimized-ends}
use multiplexing_server.Optimized.Codec.Writing.{
  compress_optimized-Marked, compress_optimized-compress,
}
use multiplexing_server.Optimized.Codec.Scan.{
  decompress_optimized-compress_optimized, create_map_optimized-round_trip,
}

-- "0 01\n1 1\n"
abbrev two_lines : List ℕ
two_lines = b'0' ∷ 32 ∷ b'0' ∷ b'1' ∷ 10 ∷ b'1' ∷ 32 ∷ b'1' ∷ 10 ∷ []

create_map_optimized-ends_example :
    (dict : Dict) × (create_map_optimized (some two_lines) ≡ ok dict)
    × (length dict ≡ 256)
    × All HasCode dict
create_map_optimized-ends_example = create_map_optimized-ends (some two_lines)

-- The code of the first line starts with its number and its space.
abbrev first_nodes : Dict
first_nodes =
    record { byte = 0; code_l = 4; code = 0 ∷ 240 ∷ 0 ∷ 1 ∷ [] }
    ∷ record { byte = 1; code_l = 1; code = 1 ∷ [] }
    ∷ []

first_lines : (create_map_optimized (some two_lines) >>= λ dict. ok (take 2 dict)) ≡ ok first_nodes
unfolding create_map_optimized read_lines line_step end_line line_node space_from number_of
first_lines = refl

abbrev hi : List ℕ
hi = 104 ∷ 105 ∷ []

hi_coded : length (encode plain hi) ≡ 16
unfolding encode code_at plain plain_from
hi_coded = refl

compress_optimized-Marked_run :
    (result : List ℕ) × (compress_optimized plain hi ≡ ok result) × Marked (encode plain hi) result
compress_optimized-Marked_run =
    compress_optimized-Marked plain hi plain-IsDict (omega arith) (λ e. cc)
      (omega (arith, hi_coded))

compress_optimized-compress_example :
    compress (λ _. 255) plain hi ≡ (compress_optimized plain hi >>= λ result. ok (result ++ 0 ∷ []))
compress_optimized-compress_example =
    compress_optimized-compress (λ _. 255) plain hi (λ _. omega arith) plain-IsDict (omega arith)
      (λ e. cc) (omega arith) (omega (arith, hi_coded)) (omega (arith, hi_coded))

decompress_optimized-compress_optimized_example :
    (compress_optimized plain hi >>= λ result. ok (decompress_optimized plain result)) ≡ ok hi
decompress_optimized-compress_optimized_example =
    decompress_optimized-compress_optimized plain plain-IsDict plain-IsPrefixFree hi (omega arith)
      (λ e. cc) (omega (arith, hi_coded)) (omega (arith, hi_coded))

create_map_optimized-round_trip_run :
    (create_map_optimized none >>= λ dict.
    compress_optimized dict hi >>= λ result. ok (decompress_optimized dict result))
    ≡ ok hi
create_map_optimized-round_trip_run =
    create_map_optimized-round_trip hi (omega arith) (λ e. cc) (omega arith)
