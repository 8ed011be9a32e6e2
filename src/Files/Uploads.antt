-- ===== src/Files/Uploads.antt =====
-- Uploads of backend/sftpapi.go: the registry of the files that are being written, `sftpUploadBegin`
-- behind the opening of the file, `sftpUploadChunk` and `sftpUploadEnd`. A request on the registry
-- holds its lock, and the panel sends the requests of one upload one after the other. base64 is a
-- parameter, and so is whether the server takes a write.
use dbx_plugin_ninty_shell.Base.{
  ℕ, ◌+◌, ◌^◌, ◌%◌, Option, none, some, List, [], ◌∷◌, ◌++◌, if◌then◌else◌, length,
}
use dbx_plugin_ninty_shell.Text.{Bytes, codes, is_empty}
use dbx_plugin_ninty_shell.Text.Equal.{bytes_eq}

-- `file` tells the open file apart; `bytes` is the 64 bits of the count.
pub record UploadState : Type 0 where
  pub file : ℕ
  pub bytes : ℕ

abbrev pub Pending : Type 0
Pending = List (Bytes × UploadState)

-- What happens to the files.
pub data FileEvent : Type 0 where
  wrote : ℕ → Bytes → FileEvent
  closed : ℕ → FileEvent

pub data UploadReply : Type 0 where
  begun : Bytes → UploadReply
  received : ℕ → UploadReply
  finished : ℕ → UploadReply
  unknown_upload : UploadReply
  upload_failed : Bytes → UploadReply

unfoldable pub lookup : Bytes → Pending → Option UploadState
lookup id [] = none
lookup id ((key, u) ∷ rest) =
    let later = lookup id rest in if bytes_eq key id then some u else later

unfoldable pub remove_upload : Bytes → Pending → Pending
remove_upload id [] = []
remove_upload id ((key, u) ∷ rest) =
    let later = remove_upload id rest in if bytes_eq key id then later else (key, u) ∷ later

unfoldable pub set_upload : Bytes → UploadState → Pending → Pending
unfolding remove_upload
set_upload id u pending = (id, u) ∷ remove_upload id pending

unfoldable pub peek_upload : Bytes → Pending → Option UploadState
unfolding lookup
peek_upload id pending = if is_empty id then none else lookup id pending

unfoldable pub drop_upload : Bytes → Pending → Pending
drop_upload id pending = if is_empty id then pending else remove_upload id pending

unfoldable pub pop_upload : Bytes → Pending → Pending × Option UploadState
unfolding lookup
pop_upload id pending = if is_empty id then (pending, none) else (elim (lookup id pending) [
  | none ↦ (pending, none)
  | some u ↦ (remove_upload id pending, some u)
])

-- `id` is the new identifier and `file` the file that was opened.
unfoldable pub upload_begin : Bytes → ℕ → Pending → Pending × List FileEvent × UploadReply
upload_begin id file pending =
    (set_upload id record { file = file; bytes = 0 } pending, [], begun id)

-- The chunk of an upload that is known; the data are those that the encoding gives.
unfoldable pub chunk_known :
    Bytes
    → UploadState
    → Option Bytes
    → Option Bytes
    → Pending
    → Pending × List FileEvent × UploadReply
chunk_known id u none refusal pending = (
  drop_upload id pending,
  closed u.file ∷ [],
  upload_failed (codes "Invalid upload chunk encoding"),
)
chunk_known id u (some bytes) (some err) pending =
    (pending, closed u.file ∷ [], upload_failed (codes "Upload write failed: " ++ err))
chunk_known id u (some bytes) none pending =
    let count = (u.bytes + length bytes) % 2 ^ 64 in
    (
      set_upload id record { file = u.file; bytes = count } pending,
      wrote u.file bytes ∷ [],
      received count,
    )

unfoldable pub upload_chunk :
    Bytes → Option Bytes → Option Bytes → Pending → Pending × List FileEvent × UploadReply
unfolding chunk_known peek_upload
upload_chunk id bytes refusal pending = elim (peek_upload id pending) [
  | none ↦ (pending, [], unknown_upload)
  | some u ↦ chunk_known id u bytes refusal pending
]

unfoldable pub end_known :
    UploadState → Option Bytes → Pending → Pending × List FileEvent × UploadReply
end_known u (some err) pending =
    (pending, closed u.file ∷ [], upload_failed (codes "Upload close failed: " ++ err))
end_known u none pending = (pending, closed u.file ∷ [], finished u.bytes)

unfoldable pub end_popped :
    Option Bytes → Pending × Option UploadState → Pending × List FileEvent × UploadReply
unfolding end_known
end_popped refusal (pending, none) = (pending, [], unknown_upload)
end_popped refusal (pending, some u) = end_known u refusal pending

unfoldable pub upload_end : Bytes → Option Bytes → Pending → Pending × List FileEvent × UploadReply
upload_end id refusal pending = end_popped refusal (pop_upload id pending)
