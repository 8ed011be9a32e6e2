-- ===== src/Root/Wait.antt =====
-- Waiting for a marker in a channel's output: `waitForOutputMarker` of backend/root.go.
use dbx_plugin_ninty_shell.Base.{
  Option, none, some, List, [], ◌∷◌, ◌++◌, ◌⊎◌, inl, inr, length, if◌then◌else◌, ◌≡◌, refl, sym,
  ◌∙◌, ap, append_assoc, Bool-cases,
}
use dbx_plugin_ninty_shell.Text.{Bytes, codes, is_empty}
use dbx_plugin_ninty_shell.Channel.{Delivery, Silence, read_failed, timer_fired}
use dbx_plugin_ninty_shell.Channel.Stages.{concat}
use dbx_plugin_ninty_shell.Root.Marker.{
  Found, read_until_output_marker, keep_recent, marker_loses_nothing,
}

-- What `rootMarkerState` holds when no read found the marker.
output_kept : Bytes → Bytes → List Bytes → Bytes
unfolding keep_recent
output_kept needle output [] = output
output_kept needle output (chunk ∷ chunks) =
    output_kept needle
      (keep_recent (if is_empty needle then 1 else length needle) (output ++ chunk)) chunks

-- `%q` leaves a marker as it is, letters, digits and underscores.
silence_text : Bytes → Silence → Bytes
silence_text marker (read_failed e) =
    codes "remote output ended before marker \"" ++ (marker ++ (codes "\": " ++ e))
silence_text marker (timer_fired shown) =
    codes "remote output marker \"" ++ (marker ++ (codes "\" was not received within " ++ shown))

-- What was read in front of the marker, and the error or the reads behind the marker.
unfoldable pub marker_result :
    Bytes → List Bytes → Silence → Option Found → Bytes × (Bytes ⊎ List Bytes)
unfolding output_kept silence_text
marker_result marker chunks silence none =
    (output_kept marker [] chunks, inl (silence_text marker silence))
marker_result marker chunks silence (some f) =
    (f.prefix, inr (if is_empty f.tail then f.unread else f.tail ∷ f.unread))

-- `pending` are reads that came with an earlier marker and were not used.
unfoldable pub wait_for_output_marker : Bytes → List Bytes → Delivery → Bytes × (Bytes ⊎ List Bytes)
unfolding marker_result
wait_for_output_marker marker pending d =
    if is_empty marker
    then ([], inl (codes "output marker is empty"))
    else marker_result marker (pending ++ d.chunks) d.silence
        (read_until_output_marker marker [] (pending ++ d.chunks))

-- The rest stands behind the marker.
abbrev pub Behind : Bytes → Bytes → Bytes → Type 0
Behind marker heard rest = (before : Bytes) × (heard ≡ before ++ (marker ++ rest))

-- If a wait found its marker, what it leaves stands behind the marker.
abbrev pub Leaves : Bytes → Bytes → Bytes × (Bytes ⊎ List Bytes) → Type 0
Leaves marker heard (prefix, inl e) = Unit
Leaves marker heard (prefix, inr pending) = Behind marker heard (concat pending)

pub concat-append : (xs ys : List Bytes) → concat (xs ++ ys) ≡ concat xs ++ concat ys
unfolding concat
concat-append [] ys = refl
concat-append (x ∷ xs) ys =
    ap (λ t. x ++ t) (concat-append xs ys) ∙ sym (append_assoc x (concat xs) (concat ys))

concat_tail :
    (tail : Bytes) (unread : List Bytes)
    → concat (if is_empty tail then unread else tail ∷ unread) ≡ tail ++ concat unread
unfolding concat
concat_tail [] unread = refl
concat_tail (c ∷ tail) unread = refl

marker_result-Leaves :
    (marker : Bytes) (chunks : List Bytes) (silence : Silence) (found : Option Found)
    → read_until_output_marker marker [] chunks ≡ found
    → Leaves marker (concat chunks) (marker_result marker chunks silence found)
unfolding marker_result
marker_result-Leaves marker chunks silence none h = tt
marker_result-Leaves marker chunks silence (some f) h =
    let (old, whole) = marker_loses_nothing marker [] chunks f h in
    (
      old ++ f.prefix,
      sym whole
          ∙ sym (append_assoc old f.prefix _)
          ∙ ap (λ t. (old ++ f.prefix) ++ (marker ++ t)) (sym (concat_tail f.tail f.unread)),
    )

-- What a wait leaves stands behind its marker.
pub wait_for_output_marker-Leaves :
    (marker : Bytes) (pending : List Bytes) (d : Delivery)
    → Leaves marker (concat (pending ++ d.chunks)) (wait_for_output_marker marker pending d)
unfolding wait_for_output_marker
wait_for_output_marker-Leaves marker pending d = elim (Bool-cases (is_empty marker)) [
  | inl e ↦ rw e tt
  | inr e ↦ rw e (marker_result-Leaves marker (pending ++ d.chunks) d.silence _ refl)
]
