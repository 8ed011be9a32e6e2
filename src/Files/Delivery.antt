-- ===== src/Files/Delivery.antt =====
-- What an upload delivers, among requests on other uploads.
use dbx_plugin_ninty_shell.Base.{
  ℕ, ◌+◌, ◌^◌, ◌%◌, false, Option, none, some, List, [], ◌∷◌, ◌++◌, ◌≡◌, refl, arith, if◌then◌else◌,
  length, Bool-cases, inl, inr, map, ap, ◌∙◌, Option-cases,
}
use dbx_plugin_ninty_shell.Text.{Bytes, is_empty}
use dbx_plugin_ninty_shell.Text.Equal.{bytes_eq, bytes_eq_refl, bytes_eq_iff}
use dbx_plugin_ninty_shell.Files.Uploads.{
  UploadState, Pending, FileEvent, wrote, closed, UploadReply, finished, lookup, peek_upload,
  pop_upload, upload_begin, upload_chunk, chunk_known, upload_end, end_known, end_popped,
}
use dbx_plugin_ninty_shell.Files.Registry.{
  unknown_pop, known_end, lookup-remove_upload, lookup-remove_other, lookup-set_upload,
  lookup-set_other, chunk_other, end_other, known_chunk, unknown_chunk,
}

-- The requests on the registry, with what the encoding and the server give.
pub data Request : Type 0 where
  begin_at : Bytes → ℕ → Request
  chunk_at : Bytes → Option Bytes → Option Bytes → Request
  end_at : Bytes → Option Bytes → Request

abbrev pub id_of : Request → Bytes
id_of (begin_at id file) = id
id_of (chunk_at id bytes refusal) = id
id_of (end_at id refusal) = id

handle : Request → Pending → Pending × List FileEvent × UploadReply
handle (begin_at id file) pending = upload_begin id file pending
handle (chunk_at id bytes refusal) pending = upload_chunk id bytes refusal pending
handle (end_at id refusal) pending = upload_end id refusal pending

-- The registry behind a sequence of requests, and what the requests on `id` do to files.
pub run_requests : Bytes → List Request → Pending → Pending × List FileEvent
unfolding handle
run_requests id [] pending = (pending, [])
run_requests id (r ∷ rs) pending =
    let (pending', events, reply) = handle r pending in
    let (last, later) = run_requests id rs pending' in
    (last, if bytes_eq (id_of r) id then events ++ later else later)

-- Each request is on another upload, or a chunk of this one that decodes and is written.
abbrev pub Undisturbed : Bytes → List Request → Type 0
Undisturbed id [] = Unit
Undisturbed id (chunk_at id' (some bytes) none ∷ rs) = Undisturbed id rs
Undisturbed id (r ∷ rs) = (bytes_eq (id_of r) id ≡ false) × Undisturbed id rs

-- The chunks of an upload, in order.
pub chunks : Bytes → List Request → List Bytes
chunks id [] = []
chunks id (chunk_at id' (some bytes) refusal ∷ rs) =
    let later = chunks id rs in if bytes_eq id' id then bytes ∷ later else later
chunks id (r ∷ rs) = chunks id rs

pub total : List Bytes → ℕ
total [] = 0
total (c ∷ cs) = length c + total cs

module _ (id : Bytes) where
  -- A request on another upload leaves this one as it is.
  handle_other :
      (r : Request) (pending : Pending)
      → bytes_eq (id_of r) id ≡ false
      → lookup id (handle r pending).0 ≡ lookup id pending
  unfolding handle upload_begin upload_end end_popped pop_upload
  handle_other (begin_at other file) pending h = lookup-set_other id other _ pending h
  handle_other (chunk_at other bytes refusal) pending h =
      elim (Option-cases (peek_upload other pending)) [
        | inl e ↦ rw (handle, unknown_chunk id other bytes refusal pending e) refl
        | inr (u, e) ↦
            rw (handle, known_chunk id other bytes refusal pending u e)
              (chunk_other id other u bytes refusal pending h)
      ]
  handle_other (end_at other refusal) pending h = elim (Bool-cases (is_empty other)) [
    | inl b ↦ rw (handle, upload_end, pop_upload, b) refl
    | inr b ↦ elim (Option-cases (lookup other pending)) [
      | inl e ↦ ap (λ t. lookup id (end_popped refusal t).0) (unknown_pop other pending e)
      | inr (u, e) ↦
          rw (handle, known_end other refusal pending u b e, end_other id u refusal)
            (lookup-remove_other id other pending h)
    ]
  ]

  -- A chunk of this upload is written and counted.
  handle_chunk :
      (bytes : Bytes) (pending : Pending) (file n : ℕ)
      → is_empty id ≡ false
      → lookup id pending ≡ some record { file = file; bytes = n }
      → (lookup id (upload_chunk id (some bytes) none pending).0
          ≡ some record { file = file; bytes = (n + length bytes) % 2 ^ 64 })
        × ((upload_chunk id (some bytes) none pending).1 ≡ wrote file bytes ∷ [])
  unfolding peek_upload chunk_known
  handle_chunk bytes pending file n named known =
      rw
        (known_chunk id id (some bytes) none pending record { file = file; bytes = n }
          (rw named known))
        (
          lookup-set_upload id record { file = file; bytes = (n + length bytes) % 2 ^ 64 } pending,
          refl,
        )

  run_delivers :
      (rs : List Request) (pending : Pending) (file n : ℕ)
      → is_empty id ≡ false
      → Undisturbed id rs
      → lookup id pending ≡ some record { file = file; bytes = n % 2 ^ 64 }
      → (lookup id (run_requests id rs pending).0
          ≡ some record { file = file; bytes = (n + total (chunks id rs)) % 2 ^ 64 })
        × ((run_requests id rs pending).1 ≡ map (wrote file) (chunks id rs))
  unfolding run_requests chunks total
  run_delivers [] pending file n named calm known = (rw known (ground arith), refl)
  run_delivers (begin_at other f ∷ rs) pending file n named (h, calm) known =
      rw h (run_delivers rs _ file n named calm (handle_other (begin_at other f) pending h ∙ known))
  run_delivers (end_at other refusal ∷ rs) pending file n named (h, calm) known =
      rw h (
        run_delivers rs _ file n named calm (handle_other (end_at other refusal) pending h ∙ known))
  run_delivers (chunk_at other none refusal ∷ rs) pending file n named (h, calm) known = rw h (
      run_delivers rs _ file n named calm
        (handle_other (chunk_at other none refusal) pending h ∙ known))
  run_delivers (chunk_at other (some bytes) (some err) ∷ rs) pending file n named (h, calm) known =
      rw h (
        run_delivers rs _ file n named calm
          (handle_other (chunk_at other (some bytes) (some err)) pending h ∙ known))
  run_delivers (chunk_at other (some bytes) none ∷ rs) pending file n named calm known =
      elim (Bool-cases (bytes_eq other id)) [
        | inl e ↦
            let same = (bytes_eq_iff other id).0 e in
            let (counted, written) = handle_chunk bytes pending file (n % 2 ^ 64) named known in
            let (kept, events) =
              run_delivers rs (upload_chunk id (some bytes) none pending).0 file (n + length bytes)
                named calm
                (counted ∙ ap (λ k. some record { file = file; bytes = k }) (omega arith)) in
            rw (same, bytes_eq_refl id)
              (
                kept ∙ ap (λ k. some record { file = file; bytes = k % 2 ^ 64 }) (omega arith),
                rw (written, events) refl,
              )
        | inr e ↦ rw e (
            run_delivers rs _ file n named calm
              (handle_other (chunk_at other (some bytes) none) pending e ∙ known))
      ]

-- An upload with a name, among any requests on other uploads, writes its chunks to its file in order,
-- and the end of it closes the file, reports their whole length (as 64 bits) and forgets the upload, if
-- every chunk decodes, is written and the file closes.
pub upload_delivers :
    (id : Bytes) (file : ℕ) (rs : List Request) (pending : Pending)
    → is_empty id ≡ false
    → Undisturbed id rs
    → let (last, events) = run_requests id rs (upload_begin id file pending).0 in
      (events ≡ map (wrote file) (chunks id rs))
      × ((upload_end id none last).1 ≡ closed file ∷ [])
      × ((upload_end id none last).2 ≡ finished (total (chunks id rs) % 2 ^ 64))
      × (peek_upload id (upload_end id none last).0 ≡ none)
unfolding upload_begin end_known peek_upload
upload_delivers id file rs pending named calm =
    let start = lookup-set_upload id record { file = file; bytes = 0 } pending in
    let (known, events) =
      run_delivers id rs (upload_begin id file pending).0 file 0 named calm start in
    let state : UploadState = record { file = file; bytes = (0 + total (chunks id rs)) % 2 ^ 64 } in
    let last = (run_requests id rs (upload_begin id file pending).0).0 in
    let ended = known_end id none last state named known in
    (
      events,
      ap (λ t. t.1) ended,
      ap (λ t. t.2) ended ∙ ap finished (omega arith),
      ap (λ t. peek_upload id t.0) ended ∙ rw named (lookup-remove_upload id last),
    )
