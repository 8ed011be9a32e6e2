-- ===== src/Text/Defs.antt =====
-- Prefixes, searches and trimming of Go's `strings` package on byte strings.
use Prim.Native.Char.{code}
use Prim.Native.String.{String}
use mathlib.Core.Option
use mathlib.Core.List.{reverse}
use dbx_plugin_ninty_shell.Base.{
  ℕ, zero, suc, Bool, true, false, ◌&&◌, ◌||◌, Option, none, some, List, [], ◌∷◌, leb, ◌==◌,
  if◌then◌else◌,
}

abbrev pub Bytes : Type 0
Bytes = List ℕ

-- The bytes of an ASCII literal.
abbrev pub codes : String → Bytes
codes String.[] = []
codes (String.◌∷◌ c s) = code c ∷ codes s

abbrev pub newline : ℕ
newline = 10

abbrev pub carriage_return : ℕ
carriage_return = 13

abbrev pub is_empty : Bytes → Bool
is_empty [] = true
is_empty (c ∷ s) = false

-- strings.CutPrefix
unfoldable pub cut_prefix : Bytes → Bytes → Option Bytes
cut_prefix s [] = some s
cut_prefix [] (p ∷ ps) = none
cut_prefix (c ∷ s) (p ∷ ps) = if c == p then cut_prefix s ps else none

-- strings.HasPrefix
unfoldable pub has_prefix : Bytes → Bytes → Bool
has_prefix s [] = true
has_prefix [] (p ∷ ps) = false
has_prefix (c ∷ s) (p ∷ ps) = c == p && has_prefix s ps

-- strings.TrimPrefix
unfoldable pub trim_prefix : Bytes → Bytes → Bytes
unfolding cut_prefix
trim_prefix s p = Option.get_or (cut_prefix s p) s

-- strings.HasSuffix
unfoldable pub has_suffix : Bytes → Bytes → Bool
unfolding has_prefix
has_suffix s p = has_prefix (reverse s) (reverse p)

-- strings.TrimSuffix
unfoldable pub trim_suffix : Bytes → Bytes → Bytes
unfolding trim_prefix
trim_suffix s p = reverse (trim_prefix (reverse s) (reverse p))

-- strings.Index, the first occurrence
unfoldable pub index : Bytes → Bytes → Option ℕ
unfolding has_prefix
index [] p = if has_prefix [] p then some 0 else none
index (c ∷ s) p =
    let rest = Option.map suc (index s p) in if has_prefix (c ∷ s) p then some 0 else rest

-- strings.LastIndex
unfoldable pub last_index : Bytes → Bytes → Option ℕ
unfolding has_prefix
last_index [] p = if has_prefix [] p then some 0 else none
last_index (c ∷ s) p = elim (last_index s p) [
  | some i ↦ some (suc i)
  | none ↦ if has_prefix (c ∷ s) p then some 0 else none
]

-- strings.Contains
unfoldable pub contains : Bytes → Bytes → Bool
unfolding index
contains s p = elim (index s p) [ some i ↦ true | none ↦ false ]

-- strings.TrimRight and strings.Trim, with the cutset as a test
unfoldable pub trim_right : (ℕ → Bool) → Bytes → Bytes
trim_right p [] = []
trim_right p (c ∷ s) = elim (trim_right p s) [ [] ↦ if p c then [] else c ∷ [] | d ∷ r ↦ c ∷ d ∷ r ]

unfoldable pub trim_left : (ℕ → Bool) → Bytes → Bytes
trim_left p [] = []
trim_left p (c ∷ s) = if p c then trim_left p s else c ∷ s

-- the cutset "\r\n"
abbrev pub is_line_end : ℕ → Bool
is_line_end c = c == 13 || c == 10

-- The width of the white space character that the text begins with, 0 if it begins with none.
-- Unicode's white space is U+0009 to U+000D, U+0020, U+0085, U+00A0, U+1680, U+2000 to U+200A,
-- U+2028, U+2029, U+202F, U+205F and U+3000, in UTF-8.
abbrev is_ascii_space : ℕ → Bool
is_ascii_space c = (leb 9 c && leb c 13) || c == 32

wide_space_3 : ℕ → ℕ → ℕ → Bool
wide_space_3 a b c =
    (a == 0xe1 && b == 0x9a && c == 0x80)
    || (a == 0xe2
        && b == 0x80
        && ((leb 0x80 c && leb c 0x8a) || c == 0xa8 || c == 0xa9 || c == 0xaf))
    || (a == 0xe2 && b == 0x81 && c == 0x9f)
    || (a == 0xe3 && b == 0x80 && c == 0x80)

wide_space_2 : ℕ → ℕ → Bool
wide_space_2 a b = a == 0xc2 && (b == 0x85 || b == 0xa0)

unfoldable pub space_width : Bytes → ℕ
unfolding wide_space_2 wide_space_3
space_width [] = 0
space_width (a ∷ []) = if is_ascii_space a then 1 else 0
space_width (a ∷ b ∷ []) = if is_ascii_space a then 1 else if wide_space_2 a b then 2 else 0
space_width (a ∷ b ∷ c ∷ s) =
    if is_ascii_space a
    then 1
    else if wide_space_2 a b
    then 2
    else if wide_space_3 a b c
    then 3
    else 0

-- The same of the end of a text, which is given reversed.
space_width_back : Bytes → ℕ
unfolding wide_space_2 wide_space_3
space_width_back [] = 0
space_width_back (a ∷ []) = if is_ascii_space a then 1 else 0
space_width_back (b ∷ a ∷ []) = if is_ascii_space b then 1 else if wide_space_2 a b then 2 else 0
space_width_back (c ∷ b ∷ a ∷ s) =
    if is_ascii_space c
    then 1
    else if wide_space_2 b c
    then 2
    else if wide_space_3 a b c
    then 3
    else 0

-- Drops characters from the front as long as `width` finds one; the number is what is left to skip.
drop_spaces : (Bytes → ℕ) → ℕ → Bytes → Bytes
drop_spaces width k [] = []
drop_spaces width (suc k) (c ∷ s) = drop_spaces width k s
drop_spaces width zero (c ∷ s) = elim (width (c ∷ s)) [
  | zero ↦ c ∷ s
  | suc k ↦ drop_spaces width k s
]

-- strings.TrimSpace
unfoldable pub trim_space : Bytes → Bytes
unfolding drop_spaces space_width space_width_back
trim_space s = reverse (drop_spaces space_width_back 0 (reverse (drop_spaces space_width 0 s)))
