-- ===== src/Docker/Messages.antt =====
-- The message of a Docker command without success.
use dbx_plugin_ninty_shell.Base.{
  Bool, true, false, not, [], ◌∷◌, ◌++◌, ◌≡◌, refl, arith, if◌then◌else◌, Bool-cases, Option-cases,
  ◌⊎◌, inl, inr,
}
use dbx_plugin_ninty_shell.Text.{
  Bytes, codes, is_empty, contains, index, trim_space, has_prefix, has_prefix-append,
  has_prefix_refl,
}
use dbx_plugin_ninty_shell.Text.Words.{to_lower}
use dbx_plugin_ninty_shell.Docker.{
  CommandResult, docker_permission_denied, docker_command_message, first_detail, permission_hint,
  decimal_int, hinted,
}

to_lower-append : (s t : Bytes) → to_lower (s ++ t) ≡ to_lower s ++ to_lower t
unfolding to_lower
to_lower-append [] t = refl
to_lower-append (c ∷ s) t = ground (arith, to_lower-append s t)

-- A text is still found behind another.
contains-append : (s t p : Bytes) → contains t p ≡ true → contains (s ++ t) p ≡ true
unfolding contains index
contains-append [] t p h = h
contains-append (c ∷ s) t p h = elim (Bool-cases (has_prefix (c ∷ s ++ t) p)) [
  | inl e ↦ ground (arith, e)
  | inr e ↦ elim (Option-cases (index (s ++ t) p)) [
    | inl f ↦ absurd (ground (arith, f, contains-append s t p h))
    | inr (i, f) ↦ ground (arith, e, f)
  ]
]

hint_explains : contains (to_lower permission_hint) (codes "ssh user") ≡ true
unfolding contains index has_prefix to_lower
hint_explains = refl

first_detail_filled :
    (a b other : Bytes) → is_empty other ≡ false → is_empty (first_detail a b other) ≡ false
unfolding first_detail
first_detail_filled a b other h = ground (arith, h)

has_prefix_nil : (s : Bytes) → has_prefix s [] ≡ true
unfolding has_prefix
has_prefix_nil [] = refl
has_prefix_nil (c ∷ s) = refl

-- A choice that falls back from a text begins with the text.
choice_first : (t other : Bytes) → has_prefix (if not (is_empty t) then t else other) t ≡ true
choice_first [] other = has_prefix_nil other
choice_first (c ∷ t) other = has_prefix_refl (c ∷ t)

first_detail_first : (a b other : Bytes) → has_prefix (first_detail a b other) (trim_space a) ≡ true
unfolding first_detail
first_detail_first a b other = choice_first (trim_space a) _

append_filled : (s t : Bytes) → is_empty s ≡ false → is_empty (s ++ t) ≡ false
append_filled [] t h = absurd (ground (arith, h))
append_filled (c ∷ s) t h = refl

-- The hint, if it is needed and not there.
message_explains :
    (message stderr : Bytes) (denied : Bool)
    → is_empty message ≡ false
    → has_prefix message (trim_space stderr) ≡ true
    → (is_empty (hinted denied message) ≡ false)
      × (has_prefix (hinted denied message) (trim_space stderr) ≡ true)
      × ((denied ≡ false) ⊎ (contains (to_lower (hinted denied message)) (codes "ssh user") ≡ true))
unfolding hinted
message_explains message stderr false filled first = (filled, first, inl refl)
message_explains message stderr true filled first =
    elim (Bool-cases (contains (to_lower message) (codes "ssh user"))) [
      | inl e ↦ rw (hinted, e) (filled, first, inr e)
      | inr e ↦
          rw (hinted, e)
            (
              append_filled message permission_hint filled,
              has_prefix-append message permission_hint (trim_space stderr) first,
              inr (
                  rw (to_lower-append message permission_hint) (
                    contains-append (to_lower message) (to_lower permission_hint) (codes "ssh user")
                      hint_explains)),
            )
    ]

-- The message is not empty and begins with the trimmed error output; for a command that Docker's
-- permissions refuse, it explains that the SSH user's permissions count.
pub command_message_explains :
    (r : CommandResult)
    → (is_empty (docker_command_message r) ≡ false)
      × (has_prefix (docker_command_message r) (trim_space r.stderr) ≡ true)
      × ((docker_permission_denied r ≡ false)
          ⊎ (contains (to_lower (docker_command_message r)) (codes "ssh user") ≡ true))
unfolding docker_command_message
command_message_explains r =
    let message =
      first_detail r.stderr r.stdout
        (codes "Docker command failed with exit code " ++ decimal_int r.exit_code) in
    message_explains message r.stderr (docker_permission_denied r) (first_detail_filled _ _ _ refl)
      (first_detail_first _ _ _)
