-- ===== src/Osc7.antt =====
-- Working directory reports in a terminal's output: `osc7Scanner` and `osc7URIToPath` of
-- backend/localpty.go, with `url.PathUnescape` of Go's net/url.
pub mod Begin
pub mod Found
pub mod Scan
pub mod Path
mod Scenarios
use dbx_plugin_ninty_shell.Base.{
  ℕ, zero, suc, ◌+◌, ◌-◌, ◌*◌, Bool, true, false, not, ◌&&◌, ◌||◌, Option, none, some, List, [],
  ◌∷◌, ◌++◌, ltb, leb, ◌==◌, if◌then◌else◌, length, take, drop,
}
use dbx_plugin_ninty_shell.Text.{Bytes, codes, index, has_prefix, trim_prefix, trim_space}

-- ESC ] 7 ;
abbrev pub osc_start : Bytes
osc_start = 27 ∷ 93 ∷ 55 ∷ 59 ∷ []

-- Where the payload ends and how long its terminator is: BEL, or ESC and a backslash.
skip_one : Option (ℕ × ℕ) → Option (ℕ × ℕ)
skip_one none = none
skip_one (some (end, len)) = some (suc end, len)

is_backslash_first : Bytes → Bool
is_backslash_first [] = false
is_backslash_first (c ∷ s) = c == b'\\'

pub find_end : Bytes → Option (ℕ × ℕ)
unfolding skip_one is_backslash_first
find_end [] = none
find_end (c ∷ s) =
    let rest = skip_one (find_end s) in
    if c == 7 then some (0, 1) else if c == 27 && is_backslash_first s then some (0, 2) else rest

unfoldable pub keep_last : ℕ → Bytes → Bytes
keep_last n s = if ltb n (length s) then drop (length s - n) s else s

-- The loop of `feed` over what is pending and the last report; `none` if the fuel runs out.
feed_loop : ℕ → Bytes → Bytes → Option (Bytes × Bytes)
unfolding find_end keep_last
feed_loop zero pending last = none
feed_loop (suc fuel) pending last = elim (index pending osc_start) [
  | none ↦ some (keep_last 64 pending, last)
  | some start ↦
      let rest = drop (start + 4) pending in
      elim (find_end rest) [
        | none ↦ some (if ltb 8192 (length rest) then [] else drop start pending, last)
        | some (end, len) ↦ feed_loop fuel (drop (end + len) rest) (take end rest)
      ]
]

-- `feed` with the scanner's `pending`: what is pending afterwards and the last report of the chunk,
-- empty if there is none. Each round shortens what is pending, so its length is fuel enough.
unfoldable pub feed : Bytes → Bytes → Option (Bytes × Bytes)
unfolding feed_loop
feed pending chunk = let all = pending ++ chunk in feed_loop (suc (length all)) all []

hex_value : ℕ → Option ℕ
hex_value c =
    if leb b'0' c && leb c b'9'
    then some (c - b'0')
    else if leb b'a' c && leb c b'f'
    then some (c - b'a' + 10)
    else if leb b'A' c && leb c b'F'
    then some (c - b'A' + 10)
    else none

unhex : ℕ → ℕ → Option Bytes → Option Bytes
unfolding hex_value
unhex a b rest = elim (hex_value a) [
  | none ↦ none
  | some x ↦ elim (hex_value b) [
    | none ↦ none
    | some y ↦ elim rest [ none ↦ none | some s ↦ some ((x * 16 + y) ∷ s) ]
  ]
]

keep_byte : ℕ → Option Bytes → Option Bytes
keep_byte c none = none
keep_byte c (some s) = some (c ∷ s)

-- url.PathUnescape; `none` is an invalid escape.
unfoldable pub path_unescape : Bytes → Option Bytes
unfolding unhex keep_byte
path_unescape [] = some []
path_unescape (c ∷ []) = if c == b'%' then none else some (c ∷ [])
path_unescape (c ∷ d ∷ []) = if c == b'%' then none else keep_byte c (path_unescape (d ∷ []))
path_unescape (c ∷ d ∷ e ∷ s) =
    let decoded = unhex d e (path_unescape s) in
    let kept = keep_byte c (path_unescape (d ∷ e ∷ s)) in if c == b'%' then decoded else kept

-- strings.ReplaceAll(raw, "/", "\\")
backslashes : Bytes → Bytes
backslashes [] = []
backslashes (c ∷ s) = (if c == b'/' then b'\\' else c) ∷ backslashes s

-- "/C:\Users" to "C:\Users"
drop_slash : Bytes → Bytes
drop_slash (c ∷ d ∷ s) = if c == b'\\' && not (d == b'\\') then d ∷ s else c ∷ d ∷ s
drop_slash s = s

with_drive : Bytes → Bytes
with_drive (c ∷ d ∷ e ∷ s) = if d == b':' then c ∷ d ∷ e ∷ s else []
with_drive s = []

drop_host : Bytes → Bytes
drop_host raw =
    if has_prefix raw (codes "/")
    then raw
    else (elim (index raw (codes "/")) [ none ↦ raw | some i ↦ drop i raw ])

decoded : Bytes → Bytes
decoded raw = elim (path_unescape raw) [ none ↦ raw | some dec ↦ dec ]

-- The flag is `goos == "windows"`.
unfoldable pub osc7_uri_to_path : Bytes → Bool → Bytes
unfolding backslashes drop_slash with_drive drop_host decoded path_unescape
osc7_uri_to_path uri windows =
    let raw = decoded (drop_host (trim_prefix (trim_space uri) (codes "file://"))) in
    if windows
    then with_drive (drop_slash (backslashes raw))
    else if has_prefix raw (codes "/")
    then raw
    else []
