-- ===== src/Message/Compressed.antt =====
-- A compressed message, from the sender's `compress` to what `get_description` returns.
use multiplexing_server.Base.{
  ℕ, ◌+◌, ◌*◌, ◌^◌, ◌<◌, ◌≡◌, ◌≢◌, refl, ap, ◌∙◌, true, not, ◌||◌, some, List, [], ◌∷◌, ◌++◌, ok,
  ◌>>=◌, ◌==◌, length, length-append, length-replicate, replicate, All, arith,
}
use multiplexing_server.Codec.Bits.{length-unpack}
use multiplexing_server.Codec.Dict.{Dict, IsDict, IsPrefixFree, IsByte}
use multiplexing_server.Codec.Compress.{compress}
use multiplexing_server.Codec.Compress.Laws.{encode, Packs, length-encode, compress-Packs}
use multiplexing_server.Codec.Decompress.Laws.{decompress-Packs}
use multiplexing_server.Message.{
  Socket, rest_of, full, has_payload, contents, needs_decompression, decompress_message,
  get_description,
}
use multiplexing_server.Message.Laws.{frame, header_byte, buffer_of, get_description-frame}

Packs-length : (bits result : List ℕ) → Packs bits result → 8 * length result < length bits + 24
Packs-length bits result p = omega (
  arith,
  ap length p.is_result,
  length-append p.body (p.fill ∷ []),
  length-unpack p.body,
  ap length p.body_bits,
  length-append bits (replicate {A = ℕ} p.fill 0),
  length-replicate {A = ℕ} p.fill 0,
  p.fill_lt,
)

pub contents-buffer_of : (bs : List ℕ) → contents (buffer_of bs) ≡ bs
contents-buffer_of [] = refl
contents-buffer_of (b ∷ bs) = refl

-- A payload of one byte at least that a peer compresses with the server's prefix-free dictionary,
-- to fewer than 2^31 bits, and sends at once with the compression bit set, is the payload of the
-- message that `get_description` returns, if the type carries a payload and the message is not an
-- echo that is to be compressed.
pub get_description-compress :
    (header_junk : ℕ) (malloc_junk junk : ℕ → ℕ) (dict : Dict) (type r : ℕ) (payload rest : List ℕ)
    (socket : Socket)
    → ((i : ℕ) → junk i < 256)
    → IsDict dict
    → IsPrefixFree dict
    → All IsByte payload
    → payload ≢ []
    → length (encode dict payload) < 2 ^ 31
    → has_payload type ≡ true
    → r < 2
    → ((not (type == 0)) || not (r == 1)) ≡ true
    → (compress junk dict payload >>= λ sent.
        get_description header_junk malloc_junk dict
          (rest_of (frame (header_byte type 1 r) sent ++ rest) socket))
      ≡ ok (
        full (record {
          type = type;
          compression = 1;
          requires_compression = r;
          length = length payload;
          buffer = some payload;
        }),
        rest_of rest socket,
      )
unfolding decompress_message needs_decompression
get_description-compress header_junk malloc_junk junk dict type r payload rest socket hj d f hb ne
      lt ht hr flags =
    let (sent, e, p) =
      compress-Packs junk dict payload hj d hb
        (omega (arith, length-encode dict payload d f hb, lt)) lt in
    rw e (
      get_description-frame header_junk malloc_junk dict type 1 r sent rest socket ht (omega arith)
        hr (omega (arith, Packs-length (encode dict payload) sent p))
      ∙ rw flags (
          rw (contents-buffer_of sent)
            (rw (decompress-Packs dict payload sent d f hb ne lt p) refl)))
