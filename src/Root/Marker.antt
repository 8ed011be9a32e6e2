-- ===== src/Root/Marker.antt =====
-- The search for a marker in a stream: `readUntilOutputMarker` of backend/root.go. The stream is the
-- list of what the reads return, at whose end a read fails.
use dbx_plugin_ninty_shell.Base.{
  ℕ, ◌+◌, ◌-◌, ◌*◌, Option, none, some, List, [], ◌∷◌, ◌++◌, ◌≡◌, refl, sym, arith, ltb,
  if◌then◌else◌, length, take, drop, append_assoc, take-append-drop, ◌∙◌, ap, Option-cases,
  Bool-cases, inl, inr, drop-drop,
}
use dbx_plugin_ninty_shell.Text.{Bytes, index, index_parts, is_empty}
use dbx_plugin_ninty_shell.Channel.Stages.{concat}

abbrev pub output_limit : ℕ
output_limit = 64 * 1024

-- What is kept of the output while the marker is missing; a marker is shorter than the limit.
unfoldable pub keep_recent : ℕ → Bytes → Bytes
keep_recent keep all = if ltb output_limit (length all) then drop (length all - keep) all else all

pub record Found : Type 0 where
  pub prefix : Bytes
  pub tail : Bytes
  pub unread : List Bytes

-- `none` is an end of the stream before the marker.
unfoldable pub read_until_output_marker : Bytes → Bytes → List Bytes → Option Found
unfolding keep_recent
read_until_output_marker needle output [] = none
read_until_output_marker needle output (chunk ∷ chunks) =
    let all = output ++ chunk in
    let later =
      read_until_output_marker needle
        (keep_recent (if is_empty needle then 1 else length needle) all) chunks in
    elim (index all needle) [
      | some i ↦
          some record { prefix = take i all; tail = drop (i + length needle) all; unread = chunks }
      | none ↦ later
    ]

keep_recent_parts : (keep : ℕ) (all : Bytes) → (old : Bytes) × (old ++ keep_recent keep all ≡ all)
unfolding keep_recent
keep_recent_parts keep all = elim (Bool-cases (ltb output_limit (length all))) [
  | inl e ↦ (take (length all - keep) all, rw e (take-append-drop (length all - keep) all))
  | inr e ↦ ([], rw e refl)
]

module _ (needle output chunk : Bytes) (chunks : List Bytes) where
  keep : ℕ
  keep = if is_empty needle then 1 else length needle

  not_yet :
      index (output ++ chunk) needle ≡ none
      → read_until_output_marker needle output (chunk ∷ chunks)
        ≡ read_until_output_marker needle (keep_recent keep (output ++ chunk)) chunks
  unfolding read_until_output_marker keep
  not_yet e = rw (read_until_output_marker, e) refl

  seen :
      (i : ℕ)
      → index (output ++ chunk) needle ≡ some i
      → read_until_output_marker needle output (chunk ∷ chunks)
        ≡ some record {
          prefix = take i (output ++ chunk);
          tail = drop (i + length needle) (output ++ chunk);
          unread = chunks;
        }
  unfolding read_until_output_marker
  seen i e = rw (read_until_output_marker, e) refl

  parts_seen :
      (i : ℕ)
      → index (output ++ chunk) needle ≡ some i
      → take i (output ++ chunk)
          ++ (needle ++ (drop (i + length needle) (output ++ chunk) ++ concat chunks))
        ≡ output ++ (chunk ++ concat chunks)
  parts_seen i e =
      let all = output ++ chunk in
      let before = take i all in
      let behind = drop (i + length needle) all in
      let whole : all ≡ (before ++ needle) ++ behind =
        index_parts all needle i e
        ∙ ap (λ t. (before ++ needle) ++ t)
            (drop-drop (length needle) i (i + length needle) all refl) in
      sym (append_assoc before needle (behind ++ concat chunks))
      ∙ sym (append_assoc (before ++ needle) behind (concat chunks))
      ∙ ap (λ t. t ++ concat chunks) (sym whole)
      ∙ append_assoc output chunk (concat chunks)

-- However the reads cut the stream: if the marker is found, then what was read before it, the marker,
-- the bytes that were read behind it and what is still unread are the stream without some bytes at
-- its beginning, so that nothing behind the marker is lost.
pub marker_loses_nothing :
    (needle output : Bytes) (chunks : List Bytes) (f : Found)
    → read_until_output_marker needle output chunks ≡ some f
    → (old : Bytes) × (old ++ (f.prefix ++ (needle ++ (f.tail ++ concat f.unread)))
        ≡ output ++ concat chunks)
unfolding read_until_output_marker concat
marker_loses_nothing needle output [] f h = absurd (ground (arith, h))
marker_loses_nothing needle output (chunk ∷ chunks) f h =
    elim (Option-cases (index (output ++ chunk) needle)) [
      | inl e ↦
          let kept = keep_recent (keep needle output chunk chunks) (output ++ chunk) in
          let (recent, parts) =
            keep_recent_parts (keep needle output chunk chunks) (output ++ chunk) in
          let (old, rest) =
            marker_loses_nothing needle kept chunks f
              (sym (not_yet needle output chunk chunks e) ∙ h) in
          (
            recent ++ old,
            append_assoc recent old _
                ∙ ap (λ t. recent ++ t) rest
                ∙ sym (append_assoc recent kept (concat chunks))
                ∙ ap (λ t. t ++ concat chunks) parts
                ∙ append_assoc output chunk (concat chunks),
          )
      | inr (i, e) ↦
          let same = sym (seen needle output chunk chunks i e) ∙ h in
          ([], ground (arith, same, parts_seen needle output chunk chunks i e))
    ]
