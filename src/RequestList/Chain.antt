-- ===== src/RequestList/Chain.antt =====
-- When a `RequestList` holds the requests at given addresses.
use multiplexing_server.Base.{ℕ, ◌≡◌, Option, List}
use multiplexing_server.Links
use multiplexing_server.Links.{Heap, Distinct, last}
use multiplexing_server.RequestList.{FileRequest, RequestList}

abbrev pub ChainTo : Heap FileRequest → Option ℕ → List ℕ → Option ℕ → Type 0
ChainTo = Links.ChainTo (λ (r : FileRequest). r.next)

abbrev pub Chain : Heap FileRequest → Option ℕ → List ℕ → Type 0
Chain = Links.Chain (λ (r : FileRequest). r.next)

-- The list holds the requests at these addresses, in this order.
pub record Holds (list : RequestList) (ps : List ℕ) : Type 0 where
  pub chain : Chain list.cell list.head ps
  pub tail_last : list.tail ≡ last ps
  pub distinct : Distinct ps
