-- ===== src/Docker/Ids.antt =====
-- Docker identifiers: the test `validDockerID` against a description, and the identifiers that the parsers
-- let through.
use dbx_plugin_ninty_shell.Base.{
  ℕ, ◌≤◌, true, List, [], ◌∷◌, Option, none, some, ◌≡◌, ◌⊎◌, inl, inr, ◌↔◌, refl, arith, length,
  All, Bool-cases,
}
use dbx_plugin_ninty_shell.Text.{Bytes, newline, is_empty, split, trim_space}
use dbx_plugin_ninty_shell.Docker.{all_hex, valid_docker_id}
use dbx_plugin_ninty_shell.Text.Words.{fields, split_text}
use dbx_plugin_ninty_shell.Docker.{short_id}
use dbx_plugin_ninty_shell.Docker.Types.{ImageDetails}
use dbx_plugin_ninty_shell.Docker.Raw.{RawImageConfig, RawImage, Decoder}
use dbx_plugin_ninty_shell.Docker.Tables.{read_lines, cons_read}
use dbx_plugin_ninty_shell.Docker.Inspect.{
  image_details_marker, container_ids, read_id, configured_image, plain_image, image_details,
  with_ids, with_image, image_bundle, parse_docker_image_inspection,
  parse_docker_image_details_bundle,
}

abbrev pub IsHexDigit : ℕ → Type 0
IsHexDigit c = ((48 ≤ c) × (c ≤ 57)) ⊎ (((97 ≤ c) × (c ≤ 102)) ⊎ ((65 ≤ c) × (c ≤ 70)))

-- 12 to 64 hexadecimal digits
abbrev pub IsHexId : Bytes → Type 0
IsHexId id = (12 ≤ length id) × (length id ≤ 64) × All IsHexDigit id

all_hex_iff : (s : Bytes) → (all_hex s ≡ true) ↔ All IsHexDigit s
unfolding all_hex
all_hex_iff [] = ground arith
all_hex_iff (c ∷ s) = ground (arith, all_hex_iff s)

-- The test accepts exactly 12 to 64 hexadecimal digits.
pub valid_docker_id_iff : (id : Bytes) → (valid_docker_id id ≡ true) ↔ IsHexId id
unfolding valid_docker_id
valid_docker_id_iff id = ground (arith, all_hex_iff id)

-- The value, if there is one, satisfies the predicate.
abbrev pub IfRead : {A : Type 0} → (A → Type 0) → Bytes ⊎ A → Type 0
IfRead P (inl err) = Unit
IfRead P (inr a) = P a

module _ {A : Type 0} (P : A → Type 0) (read : Bytes → Bytes ⊎ A) where
  cons_read-IfRead :
      (a : Bytes ⊎ A) (as' : Bytes ⊎ List A)
      → IfRead P a
      → IfRead (All P) as'
      → IfRead (All P) (cons_read read a as')
  cons_read-IfRead (inl err) as' h hs = tt
  cons_read-IfRead (inr a) (inl err) h hs = tt
  cons_read-IfRead (inr a) (inr as') h hs = (h, hs)

  -- What a parser of lines gives was read from a line each.
  pub read_lines-IfRead :
      ((line : Bytes) → IfRead P (read line))
      → (ls : List Bytes) → IfRead (All P) (read_lines read ls)
  unfolding read_lines
  read_lines-IfRead each [] = tt
  read_lines-IfRead each (l ∷ ls) = elim (Bool-cases (is_empty (trim_space l))) [
    | inl e ↦ rw e (read_lines-IfRead each ls)
    | inr e ↦
        rw e (
          cons_read-IfRead (read (trim_space l)) _ (each (trim_space l))
            (read_lines-IfRead each ls))
  ]

read_id-IfRead : (id : Bytes) → IfRead IsHexId (read_id id)
unfolding read_id
read_id-IfRead id = elim (Bool-cases (valid_docker_id id)) [
  | inl e ↦ rw e ((valid_docker_id_iff id).0 e)
  | inr e ↦ rw e tt
]

pub container_ids-IfRead : (raw : Bytes) → IfRead (All IsHexId) (container_ids raw)
unfolding container_ids
container_ids-IfRead raw = read_lines-IfRead IsHexId read_id read_id-IfRead (split newline raw)

configured_image_id :
    (d : ImageDetails) (c : Option RawImageConfig) → (configured_image d c).id ≡ d.id
unfolding configured_image
configured_image_id d none = refl
configured_image_id d (some c) = refl

image_details-IfRead : (r : Bytes ⊎ RawImage) → IfRead (λ d. IsHexId d.id) (image_details r)
unfolding image_details plain_image
image_details-IfRead (inl err) = tt
image_details-IfRead (inr i) = elim (Bool-cases (valid_docker_id (short_id i.id))) [
  | inl e ↦
      rw (e, configured_image_id (plain_image i) i.config)
        ((valid_docker_id_iff (short_id i.id)).0 e)
  | inr e ↦ rw e tt
]

with_ids-IfRead :
    (details : ImageDetails) (hosts : List Bytes) (ids : Bytes ⊎ List Bytes)
    → IsHexId details.id
    → IfRead (All IsHexId) ids
    → IfRead (λ t. IsHexId t.0.id × All IsHexId t.1) (with_ids details hosts ids)
unfolding with_ids
with_ids-IfRead details hosts (inl err) h hs = tt
with_ids-IfRead details hosts (inr ids) h hs = (h, hs)

with_image-IfRead :
    (ids hosts : Bytes) (image : Bytes ⊎ ImageDetails)
    → IfRead (λ d. IsHexId d.id) image
    → IfRead (λ t. IsHexId t.0.id × All IsHexId t.1) (with_image ids hosts image)
unfolding with_image
with_image-IfRead ids hosts (inl err) h = tt
with_image-IfRead ids hosts (inr details) h =
    with_ids-IfRead details (fields hosts) (container_ids ids) h (container_ids-IfRead ids)

image_bundle-IfRead :
    (d : Decoder) (parts : List Bytes)
    → IfRead (λ t. IsHexId t.0.id × All IsHexId t.1) (image_bundle d parts)
unfolding image_bundle parse_docker_image_inspection
image_bundle-IfRead d [] = tt
image_bundle-IfRead d (a ∷ []) = tt
image_bundle-IfRead d (a ∷ b ∷ []) = tt
image_bundle-IfRead d (a ∷ b ∷ c ∷ []) =
    with_image-IfRead b c (image_details (d.image (trim_space a)))
      (image_details-IfRead (d.image (trim_space a)))
image_bundle-IfRead d (a ∷ b ∷ c ∷ e ∷ rest) = tt

-- Whatever the host prints, the image and each container that the panel goes on with have valid
-- identifiers.
pub image_bundle_ids :
    (d : Decoder) (raw : Bytes)
    → IfRead (λ t. IsHexId t.0.id × All IsHexId t.1) (parse_docker_image_details_bundle d raw)
unfolding parse_docker_image_details_bundle
image_bundle_ids d raw = image_bundle-IfRead d (split_text image_details_marker raw)
