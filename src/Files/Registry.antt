-- ===== src/Files/Registry.antt =====
-- The registry of uploads as a map: what each operation does to an identifier and to the others.
use dbx_plugin_ninty_shell.Base.{
  false, Option, none, some, [], ◌∷◌, ◌≡◌, refl, arith, Bool-cases, inl, inr, ap,
}
use dbx_plugin_ninty_shell.Text.{Bytes, is_empty}
use dbx_plugin_ninty_shell.Text.Equal.{bytes_eq, bytes_eq_refl, bytes_eq_iff}
use dbx_plugin_ninty_shell.Files.Uploads.{
  UploadState, Pending, lookup, remove_upload, set_upload, peek_upload, drop_upload, pop_upload,
  upload_chunk, chunk_known, upload_end, end_known, end_popped, unknown_upload,
}

pub known_pop :
    (id : Bytes) (pending : Pending) (u : UploadState)
    → is_empty id ≡ false
    → lookup id pending ≡ some u
    → pop_upload id pending ≡ (remove_upload id pending, some u)
unfolding pop_upload
known_pop id pending u named known = rw (pop_upload, named, known) refl

pub unknown_pop :
    (id : Bytes) (pending : Pending)
    → lookup id pending ≡ none
    → pop_upload id pending ≡ (pending, none)
unfolding pop_upload
unknown_pop id pending unknown = elim (Bool-cases (is_empty id)) [
  | inl e ↦ rw (pop_upload, e) refl
  | inr e ↦ rw (pop_upload, e, unknown) refl
]

pub known_end :
    (id : Bytes) (refusal : Option Bytes) (pending : Pending) (u : UploadState)
    → is_empty id ≡ false
    → lookup id pending ≡ some u
    → upload_end id refusal pending ≡ end_known u refusal (remove_upload id pending)
unfolding upload_end end_popped
known_end id refusal pending u named known =
    ap (end_popped refusal) (known_pop id pending u named known)

module _ (id : Bytes) where
  pub lookup-remove_upload : (pending : Pending) → lookup id (remove_upload id pending) ≡ none
  unfolding lookup remove_upload
  lookup-remove_upload [] = refl
  lookup-remove_upload ((key, u) ∷ rest) = ground (arith, lookup-remove_upload rest)

  pub lookup-remove_other :
      (other : Bytes) (pending : Pending)
      → bytes_eq other id ≡ false
      → lookup id (remove_upload other pending) ≡ lookup id pending
  unfolding lookup remove_upload
  lookup-remove_other other [] h = refl
  lookup-remove_other other ((key, u) ∷ rest) h = elim (Bool-cases (bytes_eq key other)) [
    | inl e ↦
        let same : bytes_eq key id ≡ false = rw ((bytes_eq_iff key other).0 e) h in
        ground (arith, lookup-remove_other other rest h)
    | inr e ↦ ground (arith, lookup-remove_other other rest h)
  ]

  pub lookup-set_upload :
      (u : UploadState) (pending : Pending) → lookup id (set_upload id u pending) ≡ some u
  unfolding lookup set_upload
  lookup-set_upload u pending = ground (arith, bytes_eq_refl id)

  pub lookup-set_other :
      (other : Bytes) (u : UploadState) (pending : Pending)
      → bytes_eq other id ≡ false
      → lookup id (set_upload other u pending) ≡ lookup id pending
  unfolding lookup set_upload
  lookup-set_other other u pending h = ground (arith, lookup-remove_other other pending h)

  pub drop_other :
      (other : Bytes) (pending : Pending)
      → bytes_eq other id ≡ false
      → lookup id (drop_upload other pending) ≡ lookup id pending
  unfolding drop_upload
  drop_other other pending h = ground (arith, lookup-remove_other other pending h)

  pub chunk_other :
      (other : Bytes) (u : UploadState) (bytes refusal : Option Bytes) (pending : Pending)
      → bytes_eq other id ≡ false
      → lookup id (chunk_known other u bytes refusal pending).0 ≡ lookup id pending
  unfolding chunk_known
  chunk_other other u none refusal pending h = drop_other other pending h
  chunk_other other u (some bytes) (some err) pending h = refl
  chunk_other other u (some bytes) none pending h = lookup-set_other other _ pending h

  pub end_other :
      (u : UploadState) (refusal : Option Bytes) (pending : Pending)
      → (end_known u refusal pending).0 ≡ pending
  unfolding end_known
  end_other u none pending = refl
  end_other u (some err) pending = refl

  pub known_chunk :
      (other : Bytes) (bytes refusal : Option Bytes) (pending : Pending) (u : UploadState)
      → peek_upload other pending ≡ some u
      → upload_chunk other bytes refusal pending ≡ chunk_known other u bytes refusal pending
  unfolding upload_chunk
  known_chunk other bytes refusal pending u e = rw (upload_chunk, e) refl

  pub unknown_chunk :
      (other : Bytes) (bytes refusal : Option Bytes) (pending : Pending)
      → peek_upload other pending ≡ none
      → upload_chunk other bytes refusal pending ≡ (pending, [], unknown_upload)
  unfolding upload_chunk
  unknown_chunk other bytes refusal pending e = rw (upload_chunk, e) refl
