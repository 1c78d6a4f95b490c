-- ===== src/Optimized/Handlers/Sending.antt =====
-- What reaches the peer through `send_all`.
use multiplexing_server.Base.{
  ℕ, zero, suc, ◌+◌, ◌≤◌, ◌<◌, ◌≡◌, ◌≢◌, refl, ap, ap₂, sym, ◌∙◌, inl, inr, Bool-cases, List, [],
  ◌∷◌, ◌++◌, append-nil, append_assoc, Outcome, ok, length, take, drop, length-drop, take_of_le,
  ==_of_ne, ◌==◌, arith,
}
use multiplexing_server.Response.{Event, sends, frees_path, sent}
use multiplexing_server.Wire.{le_bytes, bswap, length-le_bytes}
use multiplexing_server.Optimized.Handlers.{send_loop, send_all, send_once, send_parts}

take-drop : (n : ℕ) (xs : List ℕ) → take n xs ++ drop n xs ≡ xs
take-drop zero xs = refl
take-drop (suc n) [] = refl
take-drop (suc n) (x ∷ xs) = ap (◌∷◌ x) (take-drop n xs)

-- How a call ends: what was sent, and what was not.
pub record Sent (accept : ℕ → ℕ) (buf : List ℕ) (r : Outcome (List Event)) : Type 0 where
  pub events : List Event
  pub left : List ℕ
  pub returns : r ≡ ok events
  pub prefix : sent events ++ left ≡ buf
  pub whole : ((call : ℕ) → accept call ≢ 0) → left ≡ []

send_loop-Sent :
    (accept : ℕ → ℕ) (fuel call : ℕ) (buf : List ℕ)
    → length buf < fuel
    → Sent accept buf (send_loop accept fuel call buf)
unfolding send_loop sent
send_loop-Sent accept zero call buf lt = absurd (omega (arith, lt))
send_loop-Sent accept (suc fuel) call [] lt = record {
  events = [];
  left = [];
  returns = refl;
  prefix = refl;
  whole = λ h. refl;
}
send_loop-Sent accept (suc fuel) call (b ∷ buf) lt = elim (Bool-cases (accept call == 0)) [
  | inl e ↦ record {
    events = [];
    left = b ∷ buf;
    returns = rw e refl;
    prefix = refl;
    whole = λ h. absurd (h call (ground arith));
  }
  | inr e ↦
      let n = accept call in
      let ne : n ≢ 0 = ground arith in
      let w =
        send_loop-Sent accept fuel (call + 1) (drop n (b ∷ buf))
          (omega (arith, length-drop n (b ∷ buf))) in
      record {
        events = sends (take n (b ∷ buf)) ∷ w.events;
        left = w.left;
        returns = rw e (rw w.returns refl);
        prefix =
            append_assoc (take n (b ∷ buf)) (sent w.events) w.left
            ∙ ap (λ l. take n (b ∷ buf) ++ l) w.prefix
            ∙ take-drop n (b ∷ buf);
        whole = w.whole;
      }
]

-- `send_all` ends, what it has sent is a prefix of its buffer, and if every call of `send` takes a byte
-- at least it is all of the buffer.
pub send_all-Sent : (accept : ℕ → ℕ) (buf : List ℕ) → Sent accept buf (send_all accept buf)
unfolding send_all
send_all-Sent accept buf = send_loop-Sent accept (suc (length buf)) 0 buf (omega arith)

-- What the peer gets of two answers.
sent-append : (xs ys : List Event) → sent (xs ++ ys) ≡ sent xs ++ sent ys
unfolding sent
sent-append [] ys = refl
sent-append (sends bs ∷ xs) ys =
    ap (λ l. bs ++ l) (sent-append xs ys) ∙ sym (append_assoc bs (sent xs) (sent ys))
sent-append (frees_path ∷ xs) ys = sent-append xs ys

send_once_lem : (taken : ℕ) (bs : List ℕ) → length bs ≤ taken → sent (send_once taken bs) ≡ bs
unfolding sent send_once
send_once_lem taken [] h = refl
send_once_lem taken (b ∷ bs) h =
    rw (==_of_ne taken 0 (λ e. omega (arith, h, e)))
      (append-nil (take taken (b ∷ bs)) ∙ take_of_le taken (b ∷ bs) h)

-- On a connection that does not fail.
pub send_all-whole :
    (accept : ℕ → ℕ) (buf : List ℕ)
    → ((call : ℕ) → accept call ≢ 0)
    → (events : List Event) × (send_all accept buf ≡ ok events) × (sent events ≡ buf)
send_all-whole accept buf h =
    let w = send_all-Sent accept buf in
    (
      w.events,
      w.returns,
      sym (append-nil (sent w.events)) ∙ ap (λ l. sent w.events ++ l) (sym (w.whole h)) ∙ w.prefix,
    )

-- If the first call takes its byte, the second all of the length, and each one behind them a byte at
-- least, the three parts reach the peer as one message.
pub send_parts-frame :
    (accept : ℕ → ℕ) (header : ℕ) (buf : List ℕ)
    → ((call : ℕ) → accept call ≢ 0)
    → 8 ≤ accept 1
    → (events : List Event) × (send_parts accept header buf ≡ ok events)
      × (sent events ≡ header ∷ (le_bytes 8 (bswap 8 (length buf)) ++ buf))
unfolding send_parts
send_parts-frame accept header buf h eight =
    let n = le_bytes 8 (bswap 8 (length buf)) in
    let (events, e, s) = send_all-whole (λ call. accept (call + 2)) buf (λ call. h (call + 2)) in
    let first = send_once (accept 0) (header ∷ []) in
    let second = send_once (accept 1) n in
    let one : 1 ≤ accept 0 = let a = h 0 in ground arith in
    (
      first ++ (second ++ events),
      rw e refl,
      sent-append first (second ++ events)
          ∙ ap₂ ◌++◌ (send_once_lem (accept 0) (header ∷ []) one) (
              sent-append second events
              ∙ ap₂ ◌++◌
                  (send_once_lem (accept 1) n (rw (length-le_bytes 8 (bswap 8 (length buf))) eight))
                  s),
    )
