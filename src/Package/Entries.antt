-- ===== src/Package/Entries.antt =====
-- The entries of a package.
use mathlib.Core.List.{Perm}
use dbx_plugin_ninty_shell.Base.{false, List, [], ◌∷◌, ◌++◌, ◌≡◌, refl, ◌∙◌, ap, map, All}
use dbx_plugin_ninty_shell.Text.{Bytes, codes}
use dbx_plugin_ninty_shell.Text.Equal.{bytes_eq, bytes_eq_refl}
use dbx_plugin_ninty_shell.Text.Sort.{
  bytes_lt_asymm, sort_by, IsSortedBy, sort_by-perm, sort_by-IsSortedBy,
}
use dbx_plugin_ninty_shell.Package.{
  Staged, drop_file, put_file, checksums_name, entry_of, file_lt, package_entries, checksums,
  package_files,
}

-- No staged file has the name of the checksums.
abbrev pub HasNone : Staged → Type 0
HasNone files = All (λ f. bytes_eq f.0 checksums_name ≡ false) files

drop_none : (files : Staged) → HasNone files → drop_file checksums_name files ≡ files
unfolding drop_file
drop_none [] h = refl
drop_none ((name, content) ∷ files) (first, rest) =
    rw first (ap (λ fs. (name, content) ∷ fs) (drop_none files rest))

put_dropped :
    (text : Bytes) (files : Staged)
    → HasNone files
    → drop_file checksums_name (put_file checksums_name text files) ≡ files
unfolding drop_file put_file
put_dropped text files h =
    rw (bytes_eq_refl checksums_name) (ap (drop_file checksums_name) (drop_none files h))
    ∙ drop_none files h

module _ (sha256 : Bytes → Bytes) (marshal : List (Bytes × Bytes) → Bytes) where
  -- Whatever is staged under other names than that of the checksums, the package has each file once, by name,
  -- and behind them the checksums, which are those of all these files.
  pub package_covered :
      (files : Staged)
      → HasNone files
      → (sorted : Staged) × Perm sorted files
        × IsSortedBy file_lt sorted
        × (package_files sha256 marshal files
            ≡ map entry_of sorted
              ++ entry_of (checksums_name, marshal (checksums sha256 marshal files) ++ codes "\n")
                ∷ [])
  unfolding package_files package_entries
  package_covered files h =
      let text = marshal (checksums sha256 marshal files) ++ codes "\n" in
      (
        sort_by file_lt files,
        sort_by-perm file_lt files,
        sort_by-IsSortedBy file_lt (λ a b. bytes_lt_asymm a.0 b.0) files,
        ap (λ fs. map entry_of (sort_by file_lt fs) ++ entry_of (checksums_name, text) ∷ [])
            (put_dropped text files h),
      )
