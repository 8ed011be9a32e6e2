-- ===== src/Files/Guard.antt =====
-- What no answer of the server makes the handlers do.
use dbx_plugin_ninty_shell.Base.{
  ℕ, zero, suc, Bool, true, false, Option, none, some, List, [], ◌∷◌, ◌++◌, ◌⊎◌, inl, inr, ◌≡◌,
  refl, arith, Bool-cases, sym, append_assoc,
}
use dbx_plugin_ninty_shell.Text.{Bytes, codes, has_prefix, has_prefix-append}
use dbx_plugin_ninty_shell.Text.Equal.{bytes_eq}
use dbx_plugin_ninty_shell.Files.{
  Info, Act, mkdir_all, mkdir, remove, remove_directory, posix_rename, Dialog, answer, too_deep,
  connect, read_dir, stat, act, open_file, stat_file, read_file, write_file, close_file, Reply,
  is_root,
}
use dbx_plugin_ninty_shell.Files.Remove.{
  child_path, on_listing, go_on, remove_entries, remove_remote_tree,
}
use dbx_plugin_ninty_shell.Files.Panel.{unless_failed, delete_stat, delete_found, delete_path}

-- Whatever the server answers, each change that the dialog asks for satisfies the predicate.
unfoldable pub AllActs : {A : Type 0} → (Act → Type 0) → Dialog A → Type 0
AllActs P (answer r) = Unit
AllActs P too_deep = Unit
AllActs P (connect k) = (r : Bytes ⊎ ℕ) → AllActs P (k r)
AllActs P (read_dir path k) = (r : Bytes ⊎ List Info) → AllActs P (k r)
AllActs P (stat path k) = (r : Bytes ⊎ Info) → AllActs P (k r)
AllActs P (act a k) = P a × ((r : Option Bytes) → AllActs P (k r))
AllActs P (open_file path flags k) = (r : Bytes ⊎ ℕ) → AllActs P (k r)
AllActs P (stat_file file k) = (r : Bytes ⊎ Info) → AllActs P (k r)
AllActs P (read_file file limit k) = (r : Bytes ⊎ Bytes) → AllActs P (k r)
AllActs P (write_file file bytes k) = (r : Option Bytes) → AllActs P (k r)
AllActs P (close_file file k) = (r : Option Bytes) → AllActs P (k r)

-- The change is of no path that the guards take for the root.
abbrev pub OffRoot : Act → Type 0
OffRoot (mkdir_all p) = is_root p ≡ false
OffRoot (mkdir p) = is_root p ≡ false
OffRoot (remove p) = is_root p ≡ false
OffRoot (remove_directory p) = is_root p ≡ false
OffRoot (posix_rename p q) = (is_root p ≡ false) × (is_root q ≡ false)

-- The path itself, or a path that begins with it and a slash.
abbrev pub IsWithin : Bytes → Bytes → Type 0
IsWithin path p = (p ≡ path) ⊎ (has_prefix p (path ++ codes "/") ≡ true)

-- The change removes the path or something within it, and not the root.
abbrev pub RemovesWithin : Bytes → Act → Type 0
RemovesWithin path (remove p) = (is_root p ≡ false) × IsWithin path p
RemovesWithin path (remove_directory p) = (is_root p ≡ false) × IsWithin path p
RemovesWithin path _ = ⊥

pub unless_failed-AllActs :
    (P : Act → Type 0) (text : Bytes) (reply : Reply) (r : Option Bytes)
    → AllActs P (unless_failed text reply r)
unfolding AllActs unless_failed
unless_failed-AllActs P text reply none = tt
unless_failed-AllActs P text reply (some err) = tt

go_on-AllActs :
    (P : Act → Type 0) (rest : Dialog Reply) (k : Option Bytes → Dialog Reply)
    → AllActs P rest
    → ((r : Option Bytes) → AllActs P (k r))
    → (r : Option Bytes) → AllActs P (go_on rest k r)
unfolding go_on
go_on-AllActs P rest k h hk none = h
go_on-AllActs P rest k h hk (some err) = hk (some err)

-- A path in a directory that is not the root is none either.
child_off_root : (path name : Bytes) → is_root path ≡ false → is_root (child_path path name) ≡ false
unfolding is_root bytes_eq
child_off_root [] name h = ground arith
child_off_root (c ∷ []) name h = ground arith
child_off_root (c ∷ d ∷ path) name h = ground arith

has_prefix_same : (path : Bytes) → has_prefix path path ≡ true
unfolding has_prefix
has_prefix_same [] = refl
has_prefix_same (c ∷ path) = ground (arith, has_prefix_same path)

IsWithin-child :
    (root path name : Bytes) → IsWithin root path → IsWithin root (child_path path name)
IsWithin-child root path name (inr h) =
    inr (has_prefix-append path (codes "/" ++ name) (root ++ codes "/") h)
IsWithin-child root path name (inl e) = inr (
    rw (e, sym (append_assoc root (codes "/") name))
      (has_prefix-append (root ++ codes "/") name (root ++ codes "/")
        (has_prefix_same (root ++ codes "/"))))

module _ (root : Bytes) where
  entries-within :
      (rec : Bytes → (Option Bytes → Dialog Reply) → Dialog Reply)
      (rec-within : (path : Bytes) (k : Option Bytes → Dialog Reply)
        → is_root path ≡ false
        → IsWithin root path
        → ((r : Option Bytes) → AllActs (RemovesWithin root) (k r))
        → AllActs (RemovesWithin root) (rec path k))
      (path : Bytes) (es : List Info) (k : Option Bytes → Dialog Reply)
      → is_root path ≡ false
      → IsWithin root path
      → ((r : Option Bytes) → AllActs (RemovesWithin root) (k r))
      → AllActs (RemovesWithin root) (remove_entries rec path es k)
  unfolding AllActs remove_entries
  entries-within rec rec-within path [] k off within rest = ((off, within), rest)
  entries-within rec rec-within path (e ∷ es) k off within rest =
      let inner = entries-within rec rec-within path es k off within rest in
      let next = go_on-AllActs (RemovesWithin root) (remove_entries rec path es k) k inner rest in
      let off' = child_off_root path e.name off in
      let within' = IsWithin-child root path e.name within in
      elim (Bool-cases e.is_dir) [
        | inl d ↦ rw d (rec-within (child_path path e.name) _ off' within' next)
        | inr d ↦ rw d ((off', within'), next)
      ]

  listed-within :
      (fuel : ℕ) (path : Bytes) (k : Option Bytes → Dialog Reply)
      → ((sub : Bytes) (k' : Option Bytes → Dialog Reply)
          → is_root sub ≡ false
          → IsWithin root sub
          → ((r : Option Bytes) → AllActs (RemovesWithin root) (k' r))
          → AllActs (RemovesWithin root) (remove_remote_tree fuel sub k'))
      → is_root path ≡ false
      → IsWithin root path
      → ((r : Option Bytes) → AllActs (RemovesWithin root) (k r))
      → (r : Bytes ⊎ List Info)
      → AllActs (RemovesWithin root) (on_listing (remove_remote_tree fuel) path k r)
  unfolding on_listing
  listed-within fuel path k inner off within rest (inl err) = rest (some err)
  listed-within fuel path k inner off within rest (inr es) =
      entries-within (remove_remote_tree fuel) inner path es k off within rest

  tree-within :
      (fuel : ℕ) (path : Bytes) (k : Option Bytes → Dialog Reply)
      → is_root path ≡ false
      → IsWithin root path
      → ((r : Option Bytes) → AllActs (RemovesWithin root) (k r))
      → AllActs (RemovesWithin root) (remove_remote_tree fuel path k)
  unfolding AllActs remove_remote_tree
  tree-within zero path k off within rest = tt
  tree-within (suc fuel) path k off within rest =
      listed-within fuel path k (tree-within fuel) off within rest

delete_stat-within :
    (fuel : ℕ) (path : Bytes) (recursive : Bool) (texts : Bytes × Bytes × Bytes) (reply : Reply)
    → is_root path ≡ false
    → (r : Bytes ⊎ Info)
    → AllActs (RemovesWithin path) (delete_stat fuel path recursive texts reply r)
unfolding AllActs delete_stat delete_found
delete_stat-within fuel path recursive texts reply off (inl err) = tt
delete_stat-within fuel path recursive (a, b, c) reply off (inr info) =
    let done = unless_failed-AllActs (RemovesWithin path) in
    let self : IsWithin path path = inl refl in
    elim (Bool-cases info.is_dir) [
      | inl d ↦ elim (Bool-cases recursive) [
        | inl e ↦
            rw (d, e) (tree-within path fuel path (unless_failed a reply) off self (done a reply))
        | inr e ↦ rw (d, e) ((off, self), done b reply)
      ]
      | inr d ↦ rw d ((off, self), done c reply)
    ]

pub delete_within :
    (fuel : ℕ) (path : Bytes) (recursive : Bool) (texts : Bytes × Bytes × Bytes) (reply : Reply)
    → AllActs (RemovesWithin path) (delete_path fuel path recursive texts reply)
unfolding AllActs delete_path
delete_within fuel path recursive texts reply = elim (Bool-cases (is_root path)) [
  | inl e ↦ rw e tt
  | inr e ↦ rw e (delete_stat-within fuel path recursive texts reply e)
]
