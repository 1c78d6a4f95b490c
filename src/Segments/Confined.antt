-- ===== src/Segments/Confined.antt =====
-- Which files a transfer can read.
use multiplexing_server.Base.{ℕ, ◌≡◌, refl, Bool-cases, >>=-cong, inl, inr, List, [], ◌∷◌}
use multiplexing_server.Codec.Dict.{Dict}
use multiplexing_server.RequestList.{FileRequest}
use multiplexing_server.Response.{is_traversal, join_path, FileSystem}
use multiplexing_server.Response.FileSize.{IsPlainName, is_traversal_lem}
use multiplexing_server.Segments.{Piece, segment_header, child_send, parent_send}

-- The two agree on the files of the directory with a plain name.
unfoldable pub Agree : FileSystem → FileSystem → List ℕ → Type 0
Agree files files' directory =
    (name : List ℕ)
    → IsPlainName name
    → files (join_path directory name) ≡ files' (join_path directory name)

parent_send-confined :
    (malloc_junk junk : ℕ → ℕ) (dict : Dict) (compressed before after : ℕ)
    (files files' : FileSystem) (directory : List ℕ) (r : FileRequest)
    → Agree files files' directory
    → parent_send malloc_junk junk dict compressed files directory r before after
      ≡ parent_send malloc_junk junk dict compressed files' directory r before after
unfolding parent_send Agree
parent_send-confined malloc_junk junk dict compressed before after files files' directory r h =
    elim (Bool-cases (is_traversal r.file_name)) [
      | inl e ↦ rw e refl
      | inr e ↦ rw (e, h r.file_name (is_traversal_lem r.file_name e)) refl
    ]

child_send-confined :
    (malloc_junk junk : ℕ → ℕ) (dict : Dict) (compressed : ℕ) (files files' : FileSystem)
    (directory : List ℕ) (r : FileRequest) (pipe : List Piece)
    → Agree files files' directory
    → child_send malloc_junk junk dict compressed files directory r pipe
      ≡ child_send malloc_junk junk dict compressed files' directory r pipe
unfolding child_send Agree
child_send-confined malloc_junk junk dict compressed files files' directory r [] h = refl
child_send-confined malloc_junk junk dict compressed files files' directory r (p ∷ pipe) h =
    elim (Bool-cases (is_traversal r.file_name)) [
      | inl e ↦ rw e refl
      | inr e ↦ rw e (
          >>=-cong (segment_header malloc_junk junk dict r.session_id p) _ _
            (λ buffer. rw (h r.file_name (is_traversal_lem r.file_name e)) refl))
    ]

-- What `parent_send` and `child_send` do, the pieces written and taken included, is the same over two
-- file systems that agree on the files whose path is the directory, a `/`, and a name with no `/` and
-- no two dots in a row.
pub transfer-confined :
    (malloc_junk junk : ℕ → ℕ) (dict : Dict) (compressed before after : ℕ)
    (files files' : FileSystem) (directory : List ℕ) (r : FileRequest) (pipe : List Piece)
    → Agree files files' directory
    → (parent_send malloc_junk junk dict compressed files directory r before after
        ≡ parent_send malloc_junk junk dict compressed files' directory r before after)
      × (child_send malloc_junk junk dict compressed files directory r pipe
          ≡ child_send malloc_junk junk dict compressed files' directory r pipe)
transfer-confined malloc_junk junk dict compressed before after files files' directory r pipe h = (
  parent_send-confined malloc_junk junk dict compressed before after files files' directory r h,
  child_send-confined malloc_junk junk dict compressed files files' directory r pipe h,
)
