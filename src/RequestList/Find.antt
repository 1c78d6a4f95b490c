-- ===== src/RequestList/Find.antt =====
-- `find` on a list that holds its requests.
use multiplexing_server.Base.{
  ℕ, zero, suc, ◌<◌, ◌≡◌, refl, ap, inl, inr, false, Bool-cases, Option, none, some, List, [], ◌∷◌,
  ◌++◌, All, arith, ◌==◌, ==_of_ne, ==_iff, length, ok, fault, Outcome,
}
use multiplexing_server.RequestList.{FileRequest, RequestList, find_from, find}
use multiplexing_server.RequestList.Chain.{Chain, ChainTo, Holds}
use multiplexing_server.Links.{Heap}

-- The request at `p` has this session.
abbrev pub HasSession : Heap FileRequest → ℕ → ℕ → Type 0
HasSession cell session p = (r : FileRequest) × (cell p ≡ some r) × (r.session_id ≡ session)

-- What a search for a session in a sequence of requests promises.
abbrev pub Found : Heap FileRequest → ℕ → List ℕ → Option ℕ → Type 0
Found cell session ps none = All (λ p. ¬ HasSession cell session p) ps
Found cell session ps (some p) =
    HasSession cell session p
    × (before : List ℕ) × (after : List ℕ) × (ps ≡ before ++ p ∷ after)
    × All (λ q. ¬ HasSession cell session q) before

-- `r` is a normal result that keeps the promise.
record Finds (cell : Heap FileRequest) (session : ℕ) (ps : List ℕ) (r : Outcome (Option ℕ))
    : Type 0 where
  pub result : Option ℕ
  pub returns : r ≡ ok result
  pub found : Found cell session ps result

Found-cons :
    (cell : Heap FileRequest) (session p : ℕ) (ps : List ℕ) (o : Option ℕ)
    → ¬ HasSession cell session p
    → Found cell session ps o
    → Found cell session (p ∷ ps) o
Found-cons cell session p ps none n f = (n, f)
Found-cons cell session p ps (some q) n f =
    let (h, before, after, e, none_before) = f in
    (h, p ∷ before, after, ap (◌∷◌ p) e, (n, none_before))

missed :
    (cell : Heap FileRequest) (session p : ℕ) (r : FileRequest)
    → cell p ≡ some r
    → (r.session_id == session) ≡ false
    → ¬ HasSession cell session p
missed cell session p r g miss (r', g', e') = let same : r ≡ r' = ground arith in ground arith

find_from-Finds :
    (fuel : ℕ) (cell : Heap FileRequest) (ptr : Option ℕ) (session : ℕ) (ps : List ℕ)
    → length ps < fuel
    → Chain cell ptr ps
    → Finds cell session ps (find_from fuel cell ptr session)
unfolding find_from
find_from-Finds zero cell ptr session ps h c = absurd (omega arith)
find_from-Finds (suc fuel) cell ptr session [] h c =
    rw c (record { result = none; returns = refl; found = tt })
find_from-Finds (suc fuel) cell ptr session (p ∷ ps) h c =
    let (e, r, g, rest) = c in
    elim (Bool-cases (r.session_id == session)) [
      | inl hit ↦ rw e (
          rw (g, find_from)
            (rw hit (record {
              result = some p;
              returns = refl;
              found = ((r, g, (==_iff _ _).0 hit), [], ps, refl, tt);
            })))
      | inr miss ↦
          let w = find_from-Finds fuel cell r.next session ps (omega arith) rest in
          rw e (
            rw (g, find_from)
              (rw miss (record {
                result = w.result;
                returns = w.returns;
                found =
                    Found-cons cell session p ps w.result (λ s. missed cell session p r g miss s)
                      w.found;
              })))
    ]

-- In a list that holds its requests, with more fuel than it has requests, `find` ends without a
-- fault: it returns the first request with the session asked for, or null if no request of the
-- list has it.
pub find-Found :
    (fuel : ℕ) (list : RequestList) (session : ℕ) (ps : List ℕ)
    → length ps < fuel
    → Holds list ps
    → (result : Option ℕ) × (find fuel list session ≡ ok result) × Found list.cell session ps result
unfolding find
find-Found fuel list session ps h v =
    let w = find_from-Finds fuel list.cell list.head session ps h v.chain in
    (w.result, w.returns, w.found)

-- A search that meets no request with its session follows the chain to its end, and faults there if
-- that is no request.
pub find_from-dangling :
    (fuel : ℕ) (cell : Heap FileRequest) (ptr : Option ℕ) (session : ℕ) (ps : List ℕ) (d : ℕ)
    → length ps < fuel
    → ChainTo cell ptr ps (some d)
    → cell d ≡ none
    → All (λ q. ¬ HasSession cell session q) ps
    → find_from fuel cell ptr session ≡ fault
unfolding find_from
find_from-dangling zero cell ptr session ps d h c g n = absurd (omega arith)
find_from-dangling (suc fuel) cell ptr session [] d h c g n = rw c (rw (g, find_from) refl)
find_from-dangling (suc fuel) cell ptr session (p ∷ ps) d h c g n =
    let (e, r, gp, rest) = c in
    let miss : (r.session_id == session) ≡ false = ==_of_ne _ _ (λ s. n.0 (r, gp, s)) in
    rw e (
      rw (gp, find_from)
        (rw miss (find_from-dangling fuel cell r.next session ps d (omega arith) rest g n.1)))
