-- ===== src/Package.antt =====
-- The packaging tool, tools/package-cross/main.go. The Go compiler, the files of the repository, debug/elf,
-- SHA-256, encoding/json, archive/zip and the expressions that read dbx-plugin.toml are parameters.
pub mod Entries
pub mod Manifest
pub mod Walk
mod Scenarios
use dbx_plugin_ninty_shell.Base.{
  ℕ, zero, suc, ◌+◌, Bool, true, false, not, ◌||◌, ◌&&◌, Option, none, some, List, [], ◌∷◌, ◌++◌,
  ◌⊎◌, inl, inr, if◌then◌else◌, ◌==◌, map, take, drop, length,
}
use dbx_plugin_ninty_shell.Text.{Bytes, codes, is_empty, has_prefix, contains, cut_prefix}
use dbx_plugin_ninty_shell.Text.Equal.{bytes_eq}
use dbx_plugin_ninty_shell.Text.Sort.{bytes_lt, sort_by}

pub record TargetSpec : Type 0 where
  pub goos : Bytes
  pub goarch : Bytes

-- `knownTargets[target]`
unfoldable pub known_target : Bytes → Option TargetSpec
known_target target =
    if bytes_eq target (codes "linux-x64")
    then some (record { goos = codes "linux"; goarch = codes "amd64" })
    else if bytes_eq target (codes "linux-arm64")
    then some (record { goos = codes "linux"; goarch = codes "arm64" })
    else if bytes_eq target (codes "windows-x64")
    then some (record { goos = codes "windows"; goarch = codes "amd64" })
    else if bytes_eq target (codes "windows-arm64")
    then some (record { goos = codes "windows"; goarch = codes "arm64" })
    else if bytes_eq target (codes "darwin-x64")
    then some (record { goos = codes "darwin"; goarch = codes "amd64" })
    else if bytes_eq target (codes "darwin-arm64")
    then some (record { goos = codes "darwin"; goarch = codes "arm64" })
    else none

-- The walk to the root of the repository; `is_root` is whether both files are there.
unfoldable pub find_root : (Bytes → Bool) → (Bytes → Bytes) → ℕ → Bytes → Option (Bytes ⊎ Bytes)
find_root is_root parent zero dir = none
find_root is_root parent (suc fuel) dir =
    let above = find_root is_root parent fuel (parent dir) in
    if is_root dir
    then some (inr dir)
    else if bytes_eq (parent dir) dir
    then some (inl (codes "no parent directory contains manifest.json + dbx-plugin.toml"))
    else above

or_default : List Bytes → List Bytes
or_default [] = codes "assets" ∷ codes "ui" ∷ []
or_default (i ∷ is) = i ∷ is

-- What the two expressions find: the binary, and the quoted words of the list.
unfoldable pub parse_cfg : Option Bytes → List Bytes → Bytes ⊎ Bytes × List Bytes
unfolding or_default
parse_cfg none include = inl (codes "backend.binary is not set")
parse_cfg (some binary) include = inr (binary, or_default include)

pub data Segment : Type 0 where
  interp dynamic other_segment : Segment

static_segments : List Segment → Option Bytes
static_segments [] = none
static_segments (interp ∷ segments) =
    some (codes "binary needs a dynamic loader (PT_INTERP); CGO_ENABLED=0 missing?")
static_segments (dynamic ∷ segments) =
    some (codes "binary has a dynamic section (PT_DYNAMIC); CGO_ENABLED=0 missing?")
static_segments (other_segment ∷ segments) = static_segments segments

after_segments : Bytes → Option Bytes → Option Bytes
after_segments content (some e) = some e
after_segments content none =
    if contains content (codes "GLIBC_")
    then some (codes "binary references GLIBC_ symbols")
    else none

-- The error of a backend that needs a system libc, for what debug/elf reads.
unfoldable pub verify_static : Bytes → Bytes ⊎ List Segment → Option Bytes
unfolding static_segments after_segments
verify_static content (inl e) = some (codes "parse ELF: " ++ e)
verify_static content (inr segments) = after_segments content (static_segments segments)

-- \s
abbrev pub is_blank : ℕ → Bool
is_blank c = c == b' ' || c == 9 || c == 10 || c == 12 || c == 13

-- \s* and the number of bytes
skip_blanks : Bytes → ℕ × Bytes
skip_blanks [] = (0, [])
skip_blanks (c ∷ s) =
    let (n, rest) = skip_blanks s in if is_blank c then (suc n, rest) else (0, c ∷ s)

-- [^"]*" and the number of bytes
to_quote : Bytes → Option ℕ
to_quote [] = none
to_quote (c ∷ s) = elim (to_quote s) [
  | none ↦ if c == b'"' then some 1 else none
  | some n ↦ if c == b'"' then some 1 else some (suc n)
]

-- What stands behind a literal text, with the number of bytes read so far.
literal : Bytes → Option (ℕ × Bytes) → Option (ℕ × Bytes)
literal text none = none
literal text (some (n, s)) = elim (cut_prefix s text) [
  | none ↦ none
  | some rest ↦ some (n + length text, rest)
]

blanks : Option (ℕ × Bytes) → Option (ℕ × Bytes)
unfolding skip_blanks
blanks none = none
blanks (some (n, s)) = let (k, rest) = skip_blanks s in some (n + k, rest)

ending : Option (ℕ × Bytes) → Option ℕ
ending none = none
ending (some (n, s)) = elim (to_quote s) [ none ↦ none | some k ↦ some (n + k) ]

-- The length of a match of "executable"\s*:\s*"bin/[^"]*" at the start.
unfoldable pub executable_match : Bytes → Option ℕ
unfolding literal blanks ending to_quote
executable_match s = ending (
    literal (codes "\"bin/")
      (blanks (literal (codes ":") (blanks (literal (codes "\"executable\"") (some (0, s)))))))

-- FindAllIndex: where the matches start and how long they are; `skip` bytes belong to the last one.
unfoldable pub find_matches : ℕ → ℕ → Bytes → List (ℕ × ℕ)
unfolding executable_match
find_matches at skip [] = []
find_matches at (suc skip) (c ∷ s) = find_matches (suc at) skip s
find_matches at zero (c ∷ s) = elim (executable_match (c ∷ s)) [
  | none ↦ find_matches (suc at) zero s
  | some zero ↦ find_matches (suc at) zero s
  | some (suc n) ↦ (at, suc n) ∷ find_matches (suc at) n s
]

unfoldable pub executable_entry : Bytes → Bytes → Bytes
executable_entry target name =
    codes "\"executable\": \"bin/" ++ (target ++ (codes "/" ++ (name ++ codes "\"")))

replace_only : Bytes → Bytes → List (ℕ × ℕ) → Bytes ⊎ Bytes
replace_only raw entry ((at, n) ∷ []) = inr (take at raw ++ (entry ++ drop (at + n) raw))
replace_only raw entry _ =
    inl (codes "expected exactly 1 backend executable entry in manifest.json")

unfoldable pub rewrite_manifest : Bytes → Bytes → Bytes → Bytes ⊎ Bytes
unfolding replace_only
rewrite_manifest target name raw =
    replace_only raw (executable_entry target name) (find_matches 0 0 raw)

unfoldable pub binary_name : TargetSpec → Bytes → Bytes
binary_name spec binary =
    if bytes_eq spec.goos (codes "windows") then binary ++ codes ".exe" else binary

-- A map from names to contents.
abbrev pub Staged : Type 0
Staged = List (Bytes × Bytes)

unfoldable pub drop_file : Bytes → Staged → Staged
drop_file name [] = []
drop_file name ((key, d) ∷ files) =
    let rest = drop_file name files in if bytes_eq key name then rest else (key, d) ∷ rest

unfoldable pub put_file : Bytes → Bytes → Staged → Staged
unfolding drop_file
put_file name content files = (name, content) ∷ drop_file name files

abbrev pub checksums_name : Bytes
checksums_name = codes "checksums.json"

pub record PackageEntry : Type 0 where
  pub name : Bytes
  pub content : Bytes
  pub executable : Bool

-- 0755 or 0644
unfoldable pub entry_of : Bytes × Bytes → PackageEntry
entry_of (name, content) = record {
  name = name;
  content = content;
  executable = bytes_eq name (codes "manifest.json") || has_prefix name (codes "bin/");
}

abbrev pub file_lt : Bytes × Bytes → Bytes × Bytes → Bool
file_lt a b = bytes_lt a.0 b.0

-- The entries that `writePackage` writes; the names of a map differ, so the files are sorted as they are.
unfoldable pub package_entries : Bytes → Staged → List PackageEntry
unfolding entry_of drop_file
package_entries checksums files =
    map entry_of (sort_by file_lt (drop_file checksums_name files))
    ++ entry_of (checksums_name, checksums) ∷ []

-- SHA-256 in hexadecimal digits and the encoding of the list are parameters.
module _ (sha256 : Bytes → Bytes) (marshal : List (Bytes × Bytes) → Bytes) where
  unfoldable pub checksums : Staged → List (Bytes × Bytes)
  checksums [] = []
  checksums ((name, content) ∷ files) = (name, sha256 content) ∷ checksums files

  -- The last part of `main`, from the staged files to the entries.
  unfoldable pub package_files : Staged → List PackageEntry
  unfolding package_entries put_file
  package_files files =
      let text = marshal (checksums files) ++ codes "\n" in
      package_entries text (put_file checksums_name text files)

-- What `main` stages for a target: the included files, the manifest and the backend, where none of them is
-- refused. The compiler's answer and what debug/elf reads of it are arguments.
module _ (target : Bytes) (spec : TargetSpec) (binary : Bytes)
    (elf : Bytes → Bytes ⊎ List Segment) where
  checked_backend : Bytes → Staged → Option Bytes → Bytes ⊎ Staged
  unfolding put_file
  checked_backend backend files (some e) = inl e
  checked_backend backend files none =
      inr (
        put_file (codes "bin/" ++ (target ++ (codes "/" ++ binary_name spec binary))) backend files)

  with_backend : Staged → Bytes ⊎ Bytes → Bytes ⊎ Staged
  unfolding checked_backend
  with_backend files (inl e) = inl e
  with_backend files (inr backend) =
      checked_backend backend files
        (if bytes_eq spec.goos (codes "linux") then verify_static backend (elf backend) else none)

  with_manifest : Staged → Bytes ⊎ Bytes → Bytes ⊎ Bytes → Bytes ⊎ Staged
  unfolding with_backend put_file
  with_manifest included built (inl e) = inl e
  with_manifest included built (inr rewritten) =
      with_backend (put_file (codes "manifest.json") rewritten included) built

  unfoldable pub stage : Bytes → Staged → Bytes ⊎ Bytes → Bytes ⊎ Staged
  unfolding with_manifest
  stage manifest included built =
      with_manifest included built (rewrite_manifest target (binary_name spec binary) manifest)
