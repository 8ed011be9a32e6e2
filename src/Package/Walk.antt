-- ===== src/Package/Walk.antt =====
-- The walk to the root of the repository.
use dbx_plugin_ninty_shell.Base.{
  ℕ, zero, suc, ◌<◌, Bool, some, ◌≡◌, refl, arith, ◌⊎◌, inl, inr, Bool-cases,
}
use dbx_plugin_ninty_shell.Text.{Bytes}
use dbx_plugin_ninty_shell.Text.Equal.{bytes_eq}
use dbx_plugin_ninty_shell.Package.{find_root}

-- Where each directory is its own parent or its parent is less deep, the walk ends for every fuel that is
-- more than the depth.
pub find_root_ends :
    (is_root : Bytes → Bool) (parent : Bytes → Bytes) (depth : Bytes → ℕ)
    → ((d : Bytes) → (bytes_eq (parent d) d ≡ Bool.true) ⊎ (depth (parent d) < depth d))
    → (fuel : ℕ) (dir : Bytes) → depth dir < fuel
    → (r : Bytes ⊎ Bytes) × (find_root is_root parent fuel dir ≡ some r)
unfolding find_root
find_root_ends is_root parent depth up zero dir h = absurd (omega (arith, h))
find_root_ends is_root parent depth up (suc fuel) dir h = elim (Bool-cases (is_root dir)) [
  | inl found ↦ rw found (_, refl)
  | inr not_here ↦ elim (Bool-cases (bytes_eq (parent dir) dir)) [
    | inl top ↦ rw (not_here, top) (_, refl)
    | inr below ↦
        rw (not_here, below)
          (find_root_ends is_root parent depth up fuel (parent dir)
            (ground (arith, up dir, below, h)))
  ]
]
