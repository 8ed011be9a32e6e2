-- ===== src/Plugin/Table.antt =====
-- Writing to a map of sessions, and what it does to this identifier and to the others.
use dbx_plugin_ninty_shell.Base.{
  false, none, some, List, [], ◌∷◌, ◌≡◌, refl, arith, if◌then◌else◌, Bool-cases, inl, inr,
}
use dbx_plugin_ninty_shell.Text.{Bytes}
use dbx_plugin_ninty_shell.Text.Equal.{bytes_eq, bytes_eq_refl, bytes_eq_iff}
use dbx_plugin_ninty_shell.Plugin.{find_session}

module _ {A : Type 0} where
  -- `delete(p.sessions, id)`
  unfoldable pub delete_session : Bytes → List (Bytes × A) → List (Bytes × A)
  delete_session id [] = []
  delete_session id ((key, s) ∷ rest) =
      let later = delete_session id rest in if bytes_eq key id then later else (key, s) ∷ later

  -- `p.sessions[id] = s`
  unfoldable pub set_session : Bytes → A → List (Bytes × A) → List (Bytes × A)
  unfolding delete_session
  set_session id s table = (id, s) ∷ delete_session id table

  pub find-delete_session :
      (id : Bytes) (table : List (Bytes × A)) → find_session (delete_session id table) id ≡ none
  unfolding find_session delete_session
  find-delete_session id [] = refl
  find-delete_session id ((key, s) ∷ rest) = ground (arith, find-delete_session id rest)

  pub find-delete_other :
      (id other : Bytes) (table : List (Bytes × A))
      → bytes_eq other id ≡ false
      → find_session (delete_session other table) id ≡ find_session table id
  unfolding find_session delete_session
  find-delete_other id other [] h = refl
  find-delete_other id other ((key, s) ∷ rest) h = elim (Bool-cases (bytes_eq key other)) [
    | inl e ↦
        let same : bytes_eq key id ≡ false = rw ((bytes_eq_iff key other).0 e) h in
        ground (arith, find-delete_other id other rest h)
    | inr e ↦ ground (arith, find-delete_other id other rest h)
  ]

  pub find-set_session :
      (id : Bytes) (s : A) (table : List (Bytes × A))
      → find_session (set_session id s table) id ≡ some s
  unfolding find_session set_session
  find-set_session id s table = ground (arith, bytes_eq_refl id)

  pub find-set_other :
      (id other : Bytes) (s : A) (table : List (Bytes × A))
      → bytes_eq other id ≡ false
      → find_session (set_session other s table) id ≡ find_session table id
  unfolding find_session set_session
  find-set_other id other s table h = ground (arith, h, find-delete_other id other table h)
