-- ===== src/Files/Remove.antt =====
-- `removeRemoteTree` of backend/sftpapi.go: a directory is removed with all that it holds. The fuel is
-- the depth of the recursion.
use dbx_plugin_ninty_shell.Base.{
  ℕ, zero, suc, ◌≤◌, true, Option, none, some, List, [], ◌∷◌, ◌++◌, inl, inr, ◌≡◌, refl, arith,
  if◌then◌else◌, leb, Bool-cases, append_assoc,
}
use dbx_plugin_ninty_shell.Text.{Bytes, codes}
use dbx_plugin_ninty_shell.Files.{
  Info, Act, remove, remove_directory, Dialog, act, read_dir, too_deep, Result, answer,
}

abbrev pub child_path : Bytes → Bytes → Bytes
child_path path name = path ++ (codes "/" ++ name)

module _ {A : Type 0} where
  -- `return err` where there is one
  unfoldable pub go_on : Dialog A → (Option Bytes → Dialog A) → Option Bytes → Dialog A
  go_on rest k (some err) = k (some err)
  go_on rest k none = rest

  -- The loop over a directory's entries; `remove_sub` is the call for a directory in it.
  unfoldable pub remove_entries :
      (Bytes → (Option Bytes → Dialog A) → Dialog A)
      → Bytes
      → List Info
      → (Option Bytes → Dialog A)
      → Dialog A
  unfolding go_on
  remove_entries remove_sub path [] k = act (remove_directory path) k
  remove_entries remove_sub path (e ∷ es) k =
      let rest = remove_entries remove_sub path es k in
      let next = go_on rest k in
      if e.is_dir
      then remove_sub (child_path path e.name) next
      else act (remove (child_path path e.name)) next

  unfoldable pub on_listing :
      (Bytes → (Option Bytes → Dialog A) → Dialog A)
      → Bytes
      → (Option Bytes → Dialog A)
      → Result (List Info)
      → Dialog A
  unfolding remove_entries
  on_listing remove_sub path k (inl err) = k (some err)
  on_listing remove_sub path k (inr es) = remove_entries remove_sub path es k

  unfoldable pub remove_remote_tree : ℕ → Bytes → (Option Bytes → Dialog A) → Dialog A
  unfolding on_listing
  remove_remote_tree zero path k = too_deep
  remove_remote_tree (suc fuel) path k = read_dir path (on_listing (remove_remote_tree fuel) path k)

-- What lies in a directory: its entries, each with what lies in it if it is a directory itself.
pub data Tree : Type 0 where
  no_more : Tree
  entry : Info → Tree → Tree → Tree

unfoldable pub entries : Tree → List Info
entries no_more = []
entries (entry i below rest) = i ∷ entries rest

abbrev pub Listing : Type 0
Listing = Bytes → Result (List Info)

-- The server lists the directories in a tree under the path as the tree has them.
abbrev pub ListsBelow : Listing → Bytes → Tree → Type 0
ListsBelow listing path no_more = Unit
ListsBelow listing path (entry i below rest) =
    let child = child_path path i.name in
    (i.is_dir ≡ true → (listing child ≡ inr (entries below)) × ListsBelow listing child below)
    × ListsBelow listing path rest

-- How deep directories stand in each other, the outermost one counted.
unfoldable pub depth : Tree → ℕ
depth no_more = 1
depth (entry i below rest) =
    let inner = if i.is_dir then suc (depth below) else 1 in
    if leb (depth rest) inner then inner else depth rest

depth_positive : (t : Tree) → 1 ≤ depth t
unfolding depth
depth_positive no_more = omega arith
depth_positive (entry i below rest) = ground (arith, depth_positive rest)

-- What removes a directory with what lies in it: entry by entry, the directory itself last.
pub removals : Bytes → Tree → List Act
removals path no_more = remove_directory path ∷ []
removals path (entry i below rest) =
    let child = child_path path i.name in
    let later = removals path rest in
    let inner = removals child below in if i.is_dir then inner ++ later else remove child ∷ later

module _ {A : Type 0} (listing : Listing) where
  also_act : Act → List Act × Option A → List Act × Option A
  also_act a (done, r) = (a ∷ done, r)

  -- What a dialog does, and its answer, if the server lists by `listing` and no change fails.
  pub run : Dialog A → List Act × Option A
  unfolding also_act
  run (answer r) = ([], some r)
  run (read_dir path k) = run (k (listing path))
  run (act a k) = also_act a (run (k none))
  run d = ([], none)

  entries_removed :
      (t : Tree) (fuel : ℕ) (path : Bytes) (k : Option Bytes → Dialog A)
      → depth t ≤ suc fuel
      → ListsBelow listing path t
      → run (remove_entries (remove_remote_tree fuel) path (entries t) k)
        ≡ (removals path t ++ (run (k none)).0, (run (k none)).1)
  unfolding run remove_entries remove_remote_tree entries removals depth
  entries_removed no_more fuel path k h below = ground arith
  entries_removed (entry i t rest) zero path k h (below, beside) = elim (Bool-cases i.is_dir) [
    | inl d ↦ absurd (ground (arith, depth_positive t))
    | inr d ↦ rw (d, entries_removed rest zero path k (ground arith) beside) refl
  ]
  entries_removed (entry i t rest) (suc fuel) path k h (below, beside) =
      elim (Bool-cases i.is_dir) [
        | inl d ↦
            let rest_done = entries_removed rest (suc fuel) path k (ground arith) beside in
            let (top, deeper) = below d in
            let inner =
              entries_removed t fuel (child_path path i.name)
                (go_on (remove_entries (remove_remote_tree (suc fuel)) path (entries rest) k) k)
                (ground arith) deeper in
            rw (d, run, top, inner, rest_done, append_assoc) refl
        | inr d ↦ rw (d, entries_removed rest (suc fuel) path k (ground arith) beside) refl
      ]

  -- Removing a directory terminates for every tree that is as deep as the fuel at most, and does, if
  -- no change fails, exactly what empties the tree from below and removes the directory last.
  pub tree_removed :
      (t : Tree) (fuel : ℕ) (path : Bytes) (k : Option Bytes → Dialog A)
      → depth t ≤ fuel
      → listing path ≡ inr (entries t)
      → ListsBelow listing path t
      → run (remove_remote_tree fuel path k)
        ≡ (removals path t ++ (run (k none)).0, (run (k none)).1)
  unfolding run remove_remote_tree removals
  tree_removed t zero path k h top below = absurd (omega (arith, depth_positive t))
  tree_removed t (suc fuel) path k h top below =
      rw (run, top) (entries_removed t fuel path k h below)
