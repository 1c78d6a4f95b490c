-- ===== src/RequestList/Unlink.antt =====
-- The walk of `remove_node` to a node behind the first, and the chain without that node.
use multiplexing_server.Base.{
  ℕ, zero, suc, ◌<◌, ◌≡◌, ◌≢◌, refl, sym, ◌∙◌, inl, inr, false, Bool-cases, Option, none, some,
  List, [], ◌∷◌, ◌++◌, All-append_left, All-append_right, arith, ◌==◌, ==_self, ==_of_ne, ==_iff,
  if◌then◌else◌, length, ok, append-nil,
}
use multiplexing_server.RequestList.{FileRequest, is_ptr, find_previous}
use multiplexing_server.RequestList.Chain.{Chain}
use multiplexing_server.Links.{
  Heap, update, NotIn, NotIn-last, Distinct, Distinct-middle, last, ChainTo-update,
}

-- The heap when the node at `t`, which holds `s`, has been linked past `p` to `next`, and `p` freed.
abbrev pub unlinked : Heap FileRequest → ℕ → FileRequest → ℕ → Option ℕ → Heap FileRequest
unlinked cell t s p next = update (update cell t (some (record s { next = next }))) p none

pub unlinked_self :
    (cell : Heap FileRequest) (t : ℕ) (s : FileRequest) (p : ℕ) (next : Option ℕ)
    → p ≢ t
    → unlinked cell t s p next t ≡ some (record s { next = next })
unlinked_self cell t s p next n = rw (==_of_ne p t n, ==_self) refl

unlinked_ne :
    (cell : Heap FileRequest) (t q : ℕ) (s : FileRequest) (p : ℕ) (next : Option ℕ)
    → p ≢ q
    → t ≢ q
    → unlinked cell t s p next q ≡ cell q
unlinked_ne cell t q s p next n m = rw (==_of_ne p q n, ==_of_ne t q m) refl

-- What the walk to `p` finds, and what unlinking there makes of the chain.
pub record Unlinks (fuel : ℕ) (cell : Heap FileRequest) (ptr : Option ℕ) (q : ℕ) (xs : List ℕ)
    (p : ℕ) (ys : List ℕ) : Type 0 where
  pub node : ℕ
  pub held : FileRequest
  pub gone : FileRequest
  pub walk : find_previous fuel cell ptr p ≡ ok node
  pub at_node : cell node ≡ some held
  pub at_gone : cell p ≡ some gone
  pub is_last : last (q ∷ xs) ≡ some node
  pub chain : Chain (unlinked cell node held p gone.next) ptr (q ∷ (xs ++ ys))

pub is_ptr-other : (ptr : Option ℕ) (x p : ℕ) → ptr ≡ some x → x ≢ p → is_ptr ptr p ≡ false
is_ptr-other ptr x p e n = rw e (==_of_ne x p n)

pub Chain-Unlinks :
    (fuel : ℕ) (cell : Heap FileRequest) (ptr : Option ℕ) (q : ℕ) (xs : List ℕ) (p : ℕ)
    (ys : List ℕ)
    → length xs < fuel
    → Chain cell ptr (q ∷ (xs ++ p ∷ ys))
    → Distinct (q ∷ (xs ++ p ∷ ys))
    → Unlinks fuel cell ptr q xs p ys
unfolding find_previous
Chain-Unlinks zero cell ptr q xs p ys h c d = absurd (omega arith)
Chain-Unlinks (suc fuel) cell ptr q [] p ys h c d =
    let (e, s, g, after) = c in
    let (e', r, g', rest) = after in
    record {
      node = q;
      held = s;
      gone = r;
      walk = rw e (rw (g, find_previous) (rw (e', ==_self) refl));
      at_node = g;
      at_gone = g';
      is_last = refl;
      chain = (
        e,
        record s { next = r.next },
        unlinked_self cell q s p r.next (λ i. d.0.0 (sym i)),
        ChainTo-update (λ (r : FileRequest). r.next) _ p none r.next ys none d.1.0
            (ChainTo-update (λ (r : FileRequest). r.next) cell q _ r.next ys none d.0.1 rest),
      );
    }
Chain-Unlinks (suc fuel) cell ptr q (x ∷ xs) p ys h c d =
    let (e, s, g, rest) = c in
    let w = Chain-Unlinks fuel cell s.next x xs p ys (omega arith) rest d.1 in
    let off = All-append_right (λ y. q ≢ y) (x ∷ xs) (p ∷ ys) d.0 in
    let x_ne_p = (Distinct-middle (x ∷ xs) p ys d.1).1.0 in
    record {
      node = w.node;
      held = w.held;
      gone = w.gone;
      walk = rw e (rw (g, find_previous) (rw (is_ptr-other s.next x p rest.0 x_ne_p) w.walk));
      at_node = w.at_node;
      at_gone = w.at_gone;
      is_last = w.is_last;
      chain = (
        e,
        s,
        unlinked_ne cell w.node q w.held p w.gone.next (λ i. off.0 (sym i))
              (NotIn-last q w.node (x ∷ xs) (All-append_left (λ y. q ≢ y) (x ∷ xs) (p ∷ ys) d.0)
                w.is_last)
            ∙ g,
        w.chain,
      );
    }

-- The tail when `p` is gone from behind `xs`.
last-middle_nil : (q : ℕ) (xs : List ℕ) (p : ℕ) → last (q ∷ (xs ++ p ∷ [])) ≡ some p
last-middle_nil q [] p = refl
last-middle_nil q (x ∷ xs) p = last-middle_nil x xs p

last-middle_cons :
    (q : ℕ) (xs : List ℕ) (p y : ℕ) (ys : List ℕ)
    → (last (q ∷ (xs ++ p ∷ y ∷ ys)) ≡ last (y ∷ ys)) × (last (q ∷ (xs ++ y ∷ ys)) ≡ last (y ∷ ys))
last-middle_cons q [] p y ys = (refl, refl)
last-middle_cons q (x ∷ xs) p y ys = last-middle_cons x xs p y ys

pub is_ptr-last : (p : ℕ) (ps : List ℕ) → NotIn p ps → is_ptr (last ps) p ≡ false
is_ptr-last p [] n = refl
is_ptr-last p (q ∷ []) n = ==_of_ne q p (λ e. n.0 (sym e))
is_ptr-last p (q ∷ r ∷ ps) n = is_ptr-last p (r ∷ ps) n.1

pub new_tail :
    (q : ℕ) (xs : List ℕ) (p : ℕ) (ys : List ℕ) (node : ℕ)
    → NotIn p ys
    → last (q ∷ xs) ≡ some node
    → (if is_ptr (last (q ∷ (xs ++ p ∷ ys))) p then some node else last (q ∷ (xs ++ p ∷ ys)))
      ≡ last (q ∷ (xs ++ ys))
new_tail q xs p [] node n l = rw (last-middle_nil q xs p, ==_self, append-nil) (sym l)
new_tail q xs p (y ∷ ys) node n l =
    let (a, b) = last-middle_cons q xs p y ys in rw (a, b, is_ptr-last p (y ∷ ys) n) refl

pub unlinked-same :
    (cell : Heap FileRequest) (t p : ℕ) (s : FileRequest) (next : Option ℕ)
    → cell t ≡ some s
    → (q : ℕ) (r : FileRequest) → q ≢ p
    → cell q ≡ some r
    → (r' : FileRequest) × (unlinked cell t s p next q ≡ some r')
      × (record r' { next = r.next } ≡ r)
unlinked-same cell t p s next g q r n h = elim (Bool-cases (t == q)) [
  | inl hit ↦
      let e : t ≡ q = (==_iff t q).0 hit in
      (record s { next = next }, rw (==_of_ne p q (λ i. n (sym i)), hit) refl, ground arith)
  | inr miss ↦ (r, rw (==_of_ne p q (λ i. n (sym i)), miss) h, refl)
]
