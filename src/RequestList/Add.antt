-- ===== src/RequestList/Add.antt =====
-- `add`, with and without a null `next` in the request added.
use multiplexing_server.Base.{
  ℕ, suc, ◌<◌, ◌≡◌, refl, sym, subst, ◌∙◌, inl, inr, Bool-cases, Option, none, some, List, [], ◌∷◌,
  ◌++◌, All, All-append, All-mono, arith, ◌==◌, ==_iff, length, ok, fault, Outcome, length-append,
}
use multiplexing_server.RequestList.{FileRequest, RequestList, set_next, add, find}
use multiplexing_server.RequestList.Find.{HasSession, find_from-dangling}
use multiplexing_server.RequestList.Chain.{Chain, ChainTo, Holds}
use multiplexing_server.Links.{
  Heap, update, update_self, update_ne, NotIn, NotIn-last, Distinct, Distinct-snoc, last, last-snoc,
}

-- The requests allocated before are there, with other `next` pointers at most.
abbrev pub SameRequests : Heap FileRequest → Heap FileRequest → Type 0
SameRequests cell cell' =
    (q : ℕ) (r : FileRequest)
    → cell q ≡ some r
    → (r' : FileRequest) × (cell' q ≡ some r') × (record r' { next = r.next } ≡ r)

-- `r` is a normal result, a list that holds `ps` over the same requests.
pub record Keeps (cell : Heap FileRequest) (ps : List ℕ) (r : Outcome RequestList) : Type 0 where
  pub list : RequestList
  pub returns : r ≡ ok list
  pub holds : Holds list ps
  pub same : SameRequests cell list.cell

-- The heap when the node at `t`, which holds `s`, has been linked on to `p`.
abbrev linked : Heap FileRequest → ℕ → FileRequest → ℕ → Heap FileRequest
linked cell t s p = update cell t (some (record s { next = some p }))

-- Linking the last node of a chain on to `p` appends `p`, and goes on where `p` does.
Chain-snoc :
    (cell : Heap FileRequest) (ptr : Option ℕ) (q : ℕ) (ps : List ℕ) (p : ℕ) (r : FileRequest)
    → Chain cell ptr (q ∷ ps)
    → Distinct (q ∷ ps)
    → NotIn p (q ∷ ps)
    → cell p ≡ some r
    → (t : ℕ) × (s : FileRequest) × (last (q ∷ ps) ≡ some t)
      × (cell t ≡ some s)
      × ChainTo (linked cell t s p) ptr (q ∷ (ps ++ p ∷ [])) r.next
Chain-snoc cell ptr q [] p r c d n g =
    let (e0, sq, gq, en) = c in
    (
      q,
      sq,
      refl,
      gq,
      (
        e0,
        record sq { next = some p },
        update_self cell q _,
        (refl, r, update_ne cell q p _ (λ h. n.0 (sym h)) ∙ g, refl),
      ),
    )
Chain-snoc cell ptr q (x ∷ ps) p r c d n g =
    let (e0, sq, gq, rest) = c in
    let (t, st, l, gt, c') = Chain-snoc cell sq.next x ps p r rest d.1 n.1 g in
    (t, st, l, gt, (e0, sq, update_ne cell t q _ (NotIn-last q t (x ∷ ps) d.0 l) ∙ gq, c'))

linked-SameRequests :
    (cell : Heap FileRequest) (t p : ℕ) (s : FileRequest)
    → cell t ≡ some s
    → SameRequests cell (linked cell t s p)
linked-SameRequests cell t p s g q r h = elim (Bool-cases (t == q)) [
  | inl hit ↦
      let e : t ≡ q = (==_iff t q).0 hit in (record s { next = some p }, rw hit refl, ground arith)
  | inr miss ↦ (r, rw miss h, refl)
]

linked-HasSession :
    (cell : Heap FileRequest) (t p session : ℕ) (s : FileRequest)
    → cell t ≡ some s
    → (q : ℕ) → HasSession (linked cell t s p) session q
    → HasSession cell session q
linked-HasSession cell t p session s g q (r, h, e) = elim (Bool-cases (t == q)) [
  | inl hit ↦
      let same : t ≡ q = (==_iff t q).0 hit in (s, rw (← same) g, ground (arith, rw hit at h))
  | inr miss ↦ (r, rw miss at h, e)
]

-- To a list that holds its requests, `add` of another one whose `next` is null appends it, and
-- touches no other field of any request.
pub add-Keeps :
    (list : RequestList) (p : ℕ) (r : FileRequest) (ps : List ℕ)
    → Holds list ps
    → NotIn p ps
    → list.cell p ≡ some r
    → r.next ≡ none
    → Keeps list.cell (ps ++ p ∷ []) (add list p)
unfolding add set_next
add-Keeps list p r [] v n g e = rw v.chain (record {
  list = record list { head = some p; tail = some p };
  returns = refl;
  holds = record { chain = (refl, r, g, e); tail_last = refl; distinct = (tt, tt) };
  same = λ q r' h. (r', h, refl);
})
add-Keeps list p r (q ∷ ps) v n g e =
    let (t, s, l, gt, c) = Chain-snoc list.cell list.head q ps p r v.chain v.distinct n g in
    let at_tail : list.tail ≡ some t = v.tail_last ∙ l in
    rw (v.chain.0) (
      rw at_tail (
        rw gt (record {
          list = record { cell = linked list.cell t s p; head = some q; tail = some p };
          returns = refl;
          holds = record {
            chain =
                subst (ChainTo (linked list.cell t s p) (some q) (q ∷ (ps ++ p ∷ []))) e
                  (rw v.chain.0 at c);
            tail_last = sym (last-snoc (q ∷ ps) p);
            distinct = Distinct-snoc p (q ∷ ps) n v.distinct;
          };
          same = linked-SameRequests list.cell t p s gt;
        })))

-- What is wrong with a request as `dissect_file_request` makes it: `next` is what `malloc` left there,
-- and `add` does not set it. Where that points to no request, a later search for a session that
-- no request of the list has goes through it, and faults.
pub add_dangling :
    (fuel : ℕ) (list : RequestList) (p d session : ℕ) (r : FileRequest) (ps : List ℕ)
    → suc (length ps) < fuel
    → Holds list ps
    → NotIn p ps
    → list.cell p ≡ some r
    → r.next ≡ some d
    → list.cell d ≡ none
    → All (λ q. ¬ HasSession list.cell session q) (p ∷ ps)
    → (list' : RequestList) × (add list p ≡ ok list') × (find fuel list' session ≡ fault)
unfolding add set_next find
add_dangling fuel list p d session r [] h v n g e gd hs = (
  record list { head = some p; tail = some p },
  rw v.chain refl,
  find_from-dangling fuel list.cell (some p) session (p ∷ []) d h (refl, r, g, e) gd hs,
)
add_dangling fuel list p d session r (q ∷ ps) h v n g e gd hs =
    let (t, s, l, gt, c) = Chain-snoc list.cell list.head q ps p r v.chain v.distinct n g in
    let at_tail : list.tail ≡ some t = v.tail_last ∙ l in
    (
      record { cell = linked list.cell t s p; head = list.head; tail = some p },
      rw (v.chain.0) (rw at_tail (rw gt refl)),
      find_from-dangling fuel (linked list.cell t s p) list.head session (q ∷ (ps ++ p ∷ [])) d
          (omega (arith, length-append ps (p ∷ [])))
          (subst (ChainTo (linked list.cell t s p) list.head (q ∷ (ps ++ p ∷ []))) e c)
          (update_ne list.cell t d _ (λ i. dangling i gt gd) ∙ gd)
          (All-mono _ _ (q ∷ (ps ++ p ∷ []))
            (λ x hx hx'. hx (linked-HasSession list.cell t p session s gt x hx'))
            (hs.1.0, All-append _ ps (p ∷ []) hs.1.1 (hs.0, tt))),
    )
  where
    dangling : {t : ℕ} {s : FileRequest} → t ≡ d → list.cell t ≡ some s → list.cell d ≡ none → ⊥
    dangling i a b = cc
