-- ===== src/Segments/Request.antt =====
-- What `dissect_file_request` makes of a payload.
use multiplexing_server.Base.{
  ℕ, ◌+◌, ◌^◌, ◌≤◌, ◌<◌, ◌≡◌, ◌≢◌, ◌⊎◌, inl, inr, refl, ap, sym, ◌∙◌, true, false, Bool-cases,
  Option, some, List, [], ◌∷◌, ◌++◌, append_assoc, ok, fault, length, length-append, drop,
  take-length-append, drop-length-append, All, arith, leb, le→leb, leb_of_lt,
}
use multiplexing_server.Wire.{be_bytes, length-be_bytes, bswap-of_le-be_bytes}
use multiplexing_server.Message.{Message, contents}
use multiplexing_server.Response.FileSize.{c_string-append, c_string-fault}
use multiplexing_server.Segments.{bytes_at, dissect_file_request}

-- The payload of a file request: the session, the offset and the length in network order, the name with
-- its zero byte, and whatever stands behind it.
abbrev pub request_payload : ℕ → ℕ → ℕ → List ℕ → List ℕ → List ℕ
request_payload session_id offset len name rest =
    be_bytes 4 session_id ++ (be_bytes 8 offset ++ (be_bytes 8 len ++ (name ++ 0 ∷ rest)))

bytes_at_lem :
    (i n : ℕ) (xs ys zs : List ℕ)
    → length xs ≡ i
    → length ys ≡ n
    → bytes_at i n (xs ++ (ys ++ zs)) ≡ ok ys
unfolding bytes_at
bytes_at_lem i n xs ys zs hi hn =
    rw (← hi, ← hn)
      (rw
        (
          le→leb (length xs + length ys) (length (xs ++ (ys ++ zs)))
              (omega (arith, length-append xs (ys ++ zs), length-append ys zs)),
          drop-length-append xs (ys ++ zs),
          take-length-append ys zs,
        )
        refl)

drop_lem : (n : ℕ) (xs ys : List ℕ) → length xs ≡ n → drop n (xs ++ ys) ≡ ys
drop_lem n xs ys h = rw (← h) (drop-length-append xs ys)

-- Every file request that a client puts into a payload, with a session of 32 bits, an offset and a
-- length of 64 bits and a name without a zero byte, is the request that comes out, with the fields
-- that are not set as they stood.
pub dissect_file_request-request_payload :
    (num_connect : ℕ) (next : Option ℕ) (session_id offset len : ℕ) (name rest : List ℕ)
    (m : Message)
    → session_id < 2 ^ 32
    → offset < 2 ^ 64
    → len < 2 ^ 64
    → All (λ b. b ≢ 0) name
    → m.buffer ≡ some (request_payload session_id offset len name rest)
    → dissect_file_request num_connect next m
      ≡ ok (record {
        session_id = session_id;
        offset = offset;
        length = len;
        file_name = name;
        num_connect = num_connect;
        next = next;
      })
unfolding dissect_file_request
dissect_file_request-request_payload num_connect next session_id offset len name rest m hs ho hl hn
      hb =
    let a = be_bytes 4 session_id in
    let b = be_bytes 8 offset in
    let c = be_bytes 8 len in
    let tail = name ++ 0 ∷ rest in
    let two : a ++ (b ++ (c ++ tail)) ≡ (a ++ b) ++ (c ++ tail) =
      sym (append_assoc a b (c ++ tail)) in
    let three : a ++ (b ++ (c ++ tail)) ≡ ((a ++ b) ++ c) ++ tail =
      two ∙ sym (append_assoc (a ++ b) c tail) in
    let la = length-be_bytes 4 session_id in
    let lb = length-be_bytes 8 offset in
    let lc = length-be_bytes 8 len in
    let lab : length (a ++ b) ≡ 12 = omega (arith, length-append a b, la, lb) in
    let labc : length ((a ++ b) ++ c) ≡ 20 = omega (arith, length-append (a ++ b) c, lab, lc) in
    let first = bytes_at_lem 0 4 [] a (b ++ (c ++ tail)) refl la in
    let second = bytes_at_lem 4 8 a b (c ++ tail) la lb in
    let third = ap (bytes_at 12 8) two ∙ bytes_at_lem 12 8 (a ++ b) c tail lab lc in
    let fourth = ap (drop 20) three ∙ drop_lem 20 ((a ++ b) ++ c) tail labc in
    rw hb (
      rw first (
        rw second (
          rw third (
            rw fourth (
              rw (c_string-append name rest hn) (
                rw
                  (
                    bswap-of_le-be_bytes 4 session_id hs,
                    bswap-of_le-be_bytes 8 offset ho,
                    bswap-of_le-be_bytes 8 len hl,
                  )
                  refl))))))

not_leb : (m n : ℕ) → leb m n ≡ false → n < m
not_leb m n h = ground arith

leb→le : (m n : ℕ) → leb m n ≡ true → m ≤ n
leb→le m n h = ground arith

no_fields :
    (num_connect : ℕ) (next : Option ℕ) (m : Message)
    → length (contents m.buffer) < 20
    → dissect_file_request num_connect next m ≡ fault
unfolding dissect_file_request bytes_at
no_fields num_connect next m h =
    rw (leb_of_lt (length (contents m.buffer)) 20 h)
      (elim (Bool-cases (leb 4 (length (contents m.buffer)))) [
        | inr e ↦ rw e refl
        | inl e ↦ rw e (elim (Bool-cases (leb 12 (length (contents m.buffer)))) [
          | inr f ↦ rw f refl
          | inl f ↦ rw f refl
        ])
      ])

-- A payload that ends before the name, or in which no zero byte ends the name, is read out of range:
-- nothing compares the length of the payload with what is taken from it.
pub dissect_file_request-short :
    (num_connect : ℕ) (next : Option ℕ) (m : Message)
    → ((length (contents m.buffer) < 20) ⊎ All (λ b. b ≢ 0) (drop 20 (contents m.buffer)))
    → dissect_file_request num_connect next m ≡ fault
unfolding dissect_file_request bytes_at
dissect_file_request-short num_connect next m (inl h) = no_fields num_connect next m h
dissect_file_request-short num_connect next m (inr h) =
    let size = length (contents m.buffer) in
    elim (Bool-cases (leb 20 size)) [
      | inr e ↦ no_fields num_connect next m (not_leb 20 size e)
      | inl e ↦
          let le = leb→le 20 size e in
          rw (le→leb 4 size (omega (arith, le)), le→leb 12 size (omega (arith, le)), e)
            (rw (c_string-fault (drop 20 (contents m.buffer)) h) refl)
    ]
