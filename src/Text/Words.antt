-- ===== src/Text/Words.antt =====
-- strings.Fields, Split at a text, ToLower and Join.
use dbx_plugin_ninty_shell.Base.{
  ℕ, zero, suc, ◌+◌, ◌&&◌, none, some, List, [], ◌∷◌, ◌++◌, ◌≡◌, refl, leb, if◌then◌else◌, length,
  take, drop,
}
use dbx_plugin_ninty_shell.Text.Defs.{Bytes, codes, index, space_width}

close_word : Bytes → List Bytes → List Bytes
close_word [] ws = ws
close_word (c ∷ w) ws = (c ∷ w) ∷ ws

-- The word that the text begins with, which may be empty, and the words behind it; the number is what
-- is left to skip of a white space character.
words : ℕ → Bytes → Bytes × List Bytes
unfolding close_word space_width
words k [] = ([], [])
words (suc k) (c ∷ s) = words k s
words zero (c ∷ s) = elim (space_width (c ∷ s)) [
  | zero ↦ let (w, ws) = words zero s in (c ∷ w, ws)
  | suc k ↦ let (w, ws) = words k s in ([], close_word w ws)
]

unfoldable pub fields : Bytes → List Bytes
unfolding words
fields s = let (w, ws) = words 0 s in close_word w ws

-- Each round takes the separator away, so the length of the text is fuel enough.
split_rounds : ℕ → Bytes → Bytes → List Bytes
unfolding index
split_rounds zero sep s = s ∷ []
split_rounds (suc fuel) sep s = elim (index s sep) [
  | none ↦ s ∷ []
  | some i ↦ take i s ∷ split_rounds fuel sep (drop (i + length sep) s)
]

-- strings.Split at a text that is not empty
unfoldable pub split_text : Bytes → Bytes → List Bytes
unfolding split_rounds
split_text sep s = split_rounds (suc (length s)) sep s

lower_byte : ℕ → ℕ
lower_byte c = if leb b'A' c && leb c b'Z' then c + 32 else c

-- strings.ToLower of ASCII text; other bytes are kept.
unfoldable pub to_lower : Bytes → Bytes
unfolding lower_byte
to_lower [] = []
to_lower (c ∷ s) = lower_byte c ∷ to_lower s

unfoldable pub join : Bytes → List Bytes → Bytes
join sep [] = []
join sep (p ∷ []) = p
join sep (p ∷ q ∷ ps) = p ++ (sep ++ join sep (q ∷ ps))

fields_test : fields (codes "  10.0.0.1 \tfe80::1\n") ≡ codes "10.0.0.1" ∷ codes "fe80::1" ∷ []
unfolding fields
fields_test = refl

split_text_test : split_text (codes "--") (codes "a--b--") ≡ codes "a" ∷ codes "b" ∷ [] ∷ []
unfolding split_text
split_text_test = refl
