-- ===== src/Terminal/Local/Environment.antt =====
-- The environment of a local terminal.
use dbx_plugin_ninty_shell.Base.{
  List, [], ◌∷◌, ◌++◌, ◌≡◌, refl, ◌∙◌, ap, Bool-cases, inl, inr, if◌then◌else◌, append-nil,
}
use dbx_plugin_ninty_shell.Text.{Bytes, codes, has_prefix}
use dbx_plugin_ninty_shell.Local.{Machine, Platform, windows, darwin, linux}
use dbx_plugin_ninty_shell.Terminal.Local.{
  is_terminal_type, other_entries, supplemented, local_pty_env,
}

-- The entries that name the type of the terminal.
unfoldable pub terminal_entries : List Bytes → List Bytes
terminal_entries [] = []
terminal_entries (entry ∷ env) =
    let rest = terminal_entries env in if is_terminal_type entry then entry ∷ rest else rest

others-append :
    (xs ys : List Bytes) → other_entries (xs ++ ys) ≡ other_entries xs ++ other_entries ys
unfolding other_entries
others-append [] ys = refl
others-append (x ∷ xs) ys = elim (Bool-cases (is_terminal_type x)) [
  | inl e ↦ rw e (others-append xs ys)
  | inr e ↦ rw e (ap (λ l. x ∷ l) (others-append xs ys))
]

terminals-append :
    (xs ys : List Bytes) → terminal_entries (xs ++ ys) ≡ terminal_entries xs ++ terminal_entries ys
unfolding terminal_entries
terminals-append [] ys = refl
terminals-append (x ∷ xs) ys = elim (Bool-cases (is_terminal_type x)) [
  | inl e ↦ rw e (ap (λ l. x ∷ l) (terminals-append xs ys))
  | inr e ↦ rw e (terminals-append xs ys)
]

others_twice : (env : List Bytes) → other_entries (other_entries env) ≡ other_entries env
unfolding other_entries
others_twice [] = refl
others_twice (x ∷ xs) = elim (Bool-cases (is_terminal_type x)) [
  | inl e ↦ rw e (others_twice xs)
  | inr e ↦ rw e (rw e (ap (λ l. x ∷ l) (others_twice xs)))
]

others_none : (env : List Bytes) → terminal_entries (other_entries env) ≡ []
unfolding other_entries terminal_entries
others_none [] = refl
others_none (x ∷ xs) = elim (Bool-cases (is_terminal_type x)) [
  | inl e ↦ rw e (others_none xs)
  | inr e ↦ rw e (rw e (others_none xs))
]

abbrev pub the_type : List Bytes
the_type = codes "TERM=xterm-256color" ∷ codes "COLORTERM=truecolor" ∷ []

type_only : (terminal_entries the_type ≡ the_type) × (other_entries the_type ≡ [])
unfolding terminal_entries other_entries has_prefix
type_only = (refl, refl)

filtered :
    (env : List Bytes)
    → (terminal_entries (other_entries env ++ the_type) ≡ the_type)
      × (other_entries (other_entries env ++ the_type) ≡ other_entries env)
filtered env = (
  terminals-append (other_entries env) the_type
      ∙ ap (λ l. l ++ terminal_entries the_type) (others_none env)
      ∙ type_only.0,
  others-append (other_entries env) the_type
      ∙ ap (λ l. l ++ other_entries the_type) (others_twice env)
      ∙ ap (λ l. other_entries env ++ l) type_only.1
      ∙ append-nil (other_entries env),
)

-- Outside Windows, where nothing is supplemented, a local terminal has one type and one kind of colours,
-- whatever this machine's environment says of them, and the other entries of that environment in their
-- order.
pub local_pty_env_entries :
    (m : Machine)
    → (terminal_entries (local_pty_env (λ env. env) m) ≡ the_type)
      × (other_entries (local_pty_env (λ env. env) m) ≡ other_entries m.environ)
unfolding local_pty_env supplemented
local_pty_env_entries m = platform_entries m.platform
  where
    platform_entries :
        (p : Platform)
        → (terminal_entries (supplemented (λ env. env) p (other_entries m.environ ++ the_type))
            ≡ the_type)
          × (other_entries (supplemented (λ env. env) p (other_entries m.environ ++ the_type))
              ≡ other_entries m.environ)
    platform_entries windows = filtered m.environ
    platform_entries darwin = filtered m.environ
    platform_entries linux = filtered m.environ
