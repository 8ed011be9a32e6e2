-- ===== src/Osc7/Scan.antt =====
-- What the scanner finds, and how much it keeps.
use dbx_plugin_ninty_shell.Base.{
  ℕ, zero, suc, ◌+◌, ◌-◌, ◌≤◌, ◌<◌, some, [], ◌∷◌, ◌++◌, ◌≡◌, arith, ltb, length, take, drop,
  length-drop, Option-cases, inl, inr, if◌then◌else◌,
}
use dbx_plugin_ninty_shell.Text.{Bytes, index, index_bound}
use dbx_plugin_ninty_shell.Osc7.{osc_start, find_end, keep_last, feed_loop, feed}

find_end_pos : (s : Bytes) (end len : ℕ) → find_end s ≡ some (end, len) → 0 < len
unfolding find_end
find_end_pos [] end len h = cc
find_end_pos (c ∷ s) end len h = elim (Option-cases (find_end s)) [
  | inl e ↦ ground arith
  | inr ((k, l), e) ↦ ground (arith, find_end_pos s k l e)
]

length-keep_last : (n : ℕ) (s : Bytes) → length (keep_last n s) ≤ n
unfolding keep_last
length-keep_last n s = ground (arith, length-drop (length s - n) s)

cap : ℕ → Bytes → Bytes → Bytes
cap start pending rest = if ltb 8192 (length rest) then [] else drop start pending

length-cap :
    (start : ℕ) (pending : Bytes)
    → index pending osc_start ≡ some start
    → length (cap start pending (drop (start + 4) pending)) ≤ 8196
unfolding cap
length-cap start pending e = ground (
  arith,
  length-drop (start + 4) pending,
  length-drop start pending,
  index_bound pending osc_start start e,
)

-- Enough fuel: the loop ends, and what it leaves pending is short.
feed_loop_ends :
    (fuel : ℕ) (pending last : Bytes)
    → length pending < fuel
    → ((p l : Bytes) × (feed_loop fuel pending last ≡ some (p, l)) × (length p ≤ 8196))
unfolding feed_loop
feed_loop_ends zero pending last h = elim h [ ]
feed_loop_ends (suc fuel) pending last h = elim (Option-cases (index pending osc_start)) [
  | inl e ↦
      (keep_last 64 pending, last, rw (e, feed_loop), omega (arith, length-keep_last 64 pending))
  | inr (start, e) ↦ elim (Option-cases (find_end (drop (start + 4) pending))) [
    | inl f ↦ (
      cap start pending (drop (start + 4) pending),
      last,
      unfold cap in ground arith,
      length-cap start pending e,
    )
    | inr ((end, len), f) ↦
        let (p, l, g, b) =
          feed_loop_ends fuel (drop (end + len) (drop (start + 4) pending))
            (take end (drop (start + 4) pending))
            (omega (
              arith,
              length-drop (end + len) (drop (start + 4) pending),
              length-drop (start + 4) pending,
              index_bound pending osc_start start e,
            )) in
        (p, l, ground arith, b)
  ]
]

-- The scanner always ends, and however much output without an end of a report arrives, it keeps at
-- most 8196 bytes of it.
pub feed_total :
    (pending chunk : Bytes)
    → ((p l : Bytes) × (feed pending chunk ≡ some (p, l)) × (length p ≤ 8196))
unfolding feed
feed_total pending chunk =
    let all = pending ++ chunk in feed_loop_ends (suc (length all)) all [] (omega arith)
