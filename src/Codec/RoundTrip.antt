-- ===== src/Codec/RoundTrip.antt =====
-- `compress` followed by `decompress`, on every payload.
use multiplexing_server.Base.{
  ℕ, arith, ◌^◌, ◌<◌, ◌≡◌, ◌≢◌, List, [], ◌∷◌, ok, fault, ◌>>=◌, length, All,
}
use multiplexing_server.Codec.Dict.{Dict, IsDict, IsPrefixFree, IsByte}
use multiplexing_server.Codec.Compress.{compress}
use multiplexing_server.Codec.Compress.Laws.{encode, length-encode, compress-Packs, compress-nil}
use multiplexing_server.Codec.Decompress.{decompress}
use multiplexing_server.Codec.Decompress.Laws.{
  decompress-Packs, decompress_zero_byte, decompress-nil,
}

-- Over a dictionary whose codes are not empty and none a prefix of another, every payload of one byte
-- at least comes back from `decompress` as it went into `compress`, whatever `realloc` leaves in
-- fresh memory, if its codes have fewer than 2^31 bits in all.
pub decompress-compress :
    (junk : ℕ → ℕ) (dict : Dict) (input : List ℕ)
    → ((i : ℕ) → junk i < 256)
    → IsDict dict
    → IsPrefixFree dict
    → All IsByte input
    → input ≢ []
    → length (encode dict input) < 2 ^ 31
    → (compress junk dict input >>= decompress dict) ≡ ok input
decompress-compress junk dict input hj d f h ne lt =
    let (result, e, p) =
      compress-Packs junk dict input hj d h (omega (arith, length-encode dict input d f h, lt))
        lt in
    rw e (decompress-Packs dict input result d f h ne lt p)

-- An empty payload does not come back: with any dictionary `compress` makes a byte 0 of it, which
-- `decompress` leaves as it is; and `decompress` of no bytes at all reads out of range.
pub decompress-compress_empty :
    (junk : ℕ → ℕ) (dict : Dict)
    → ((compress junk dict [] >>= decompress dict) ≡ ok (0 ∷ [])) × (decompress dict [] ≡ fault)
decompress-compress_empty junk dict =
    (rw (compress-nil junk dict) (decompress_zero_byte dict), decompress-nil dict)
