-- ===== src/Stream/Forward.antt =====
-- What a `streamWriter` forwards and what its ring holds.
use mathlib.Core.List.{flatten}
use dbx_plugin_ninty_shell.Base.{
  ℕ, ◌-◌, List, [], ◌∷◌, ◌++◌, ◌&&◌, ◌≡◌, refl, sym, arith, append-nil, append_assoc, ltb, leb,
  length, take, take_all, take-append, take_none, take_nil, length-append, length-take, last_n,
  last_n-append, last_n_none, last_n_nil, drop_none,
}
use dbx_plugin_ninty_shell.Text.{Bytes}
use dbx_plugin_ninty_shell.Stream.{StreamWriter, new_writer, write, write_all, keep_tail}

-- The writer has seen the bytes `seen`, whatever chunks they came in.
pub record HasSent (limit ring : ℕ) (seen : Bytes) (w : StreamWriter) : Type 0 where
  pub forwarded : flatten w.emitted ≡ take limit seen
  pub counted : w.written ≡ length (take limit seen)
  pub flagged : w.truncated ≡ (ltb 0 limit && leb limit (length seen))
  pub ring_tail : w.tail ≡ last_n ring seen
  pub same_limit : w.limit ≡ limit
  pub same_ring : w.ring_size ≡ ring

keep_tail-last_n : (size : ℕ) (tail : Bytes) → keep_tail size tail ≡ last_n size tail
unfolding keep_tail last_n
keep_tail-last_n size tail = ground (arith, drop_none (length tail - size) tail)

flatten-append_one : (cs : List Bytes) (c : Bytes) → flatten (cs ++ c ∷ []) ≡ flatten cs ++ c
unfolding flatten
flatten-append_one [] c = append-nil c
flatten-append_one (d ∷ cs) c = simp (flatten-append_one cs c, append_assoc)

module _ (limit ring : ℕ) (seen p : Bytes) (w : StreamWriter) (h : HasSent limit ring seen w) where
  write-forwarded :
      (flatten (write w p).0.emitted ≡ take limit (seen ++ p))
      × ((write w p).0.written ≡ length (take limit (seen ++ p)))
  unfolding write
  write-forwarded =
      let chunk = take (limit - length seen) p in
      ground (
        arith,
        flatten-append_one w.emitted p,
        flatten-append_one w.emitted chunk,
        take-append limit seen p,
        length-take limit seen,
        length-append (take limit seen) chunk,
        length-take (limit - length seen) p,
        take_all (limit - length seen) p,
        take_none (limit - length seen) p,
        append-nil (take limit seen),
      )

  write-flagged : (write w p).0.truncated ≡ (ltb 0 limit && leb limit (length (seen ++ p)))
  unfolding write
  write-flagged = ground (
    arith,
    length-take limit seen,
    length-append seen p,
    length-take (limit - length (take limit seen)) p,
  )

  write-ring_tail : (write w p).0.tail ≡ last_n ring (seen ++ p)
  unfolding write keep_tail
  write-ring_tail = ground (
    arith,
    last_n-append ring seen p,
    keep_tail-last_n w.ring_size (w.tail ++ p),
    last_n_none ring seen,
    last_n_none ring (seen ++ p),
  )

  -- Every write keeps the account.
  write-HasSent : HasSent limit ring (seen ++ p) (write w p).0
  unfolding write
  write-HasSent = record {
    forwarded = write-forwarded.0;
    counted = write-forwarded.1;
    flagged = write-flagged;
    ring_tail = write-ring_tail;
    same_limit = ground arith;
    same_ring = ground arith;
  }

write_all-HasSent :
    (limit ring : ℕ) (seen : Bytes) (w : StreamWriter) (ps : List Bytes)
    → HasSent limit ring seen w
    → HasSent limit ring (seen ++ flatten ps) (write_all w ps)
unfolding write_all flatten
write_all-HasSent limit ring seen w [] h = rw append-nil h
write_all-HasSent limit ring seen w (p ∷ ps) h = rw (← append_assoc) (
    write_all-HasSent limit ring (seen ++ p) (write w p).0 ps (write-HasSent limit ring seen p w h))

new_writer-HasSent : (limit ring : ℕ) → HasSent limit ring [] (new_writer limit ring)
unfolding new_writer flatten
new_writer-HasSent limit ring = record {
  forwarded = ground (arith, take_nil {A = ℕ} limit);
  counted = ground (arith, take_nil {A = ℕ} limit);
  flagged = ground arith;
  ring_tail = sym (last_n_nil ring);
  same_limit = refl;
  same_ring = refl;
}

-- However a command's output is cut into chunks: the events carry its first `limit` bytes in order,
-- `written` counts them, `truncated` is set exactly when the limit is positive and reached (also
-- when it is reached exactly), and the ring holds the last `ring` bytes of the whole output.
pub writer_refines :
    (limit ring : ℕ) (ps : List Bytes)
    → HasSent limit ring (flatten ps) (write_all (new_writer limit ring) ps)
writer_refines limit ring ps =
    write_all-HasSent limit ring [] (new_writer limit ring) ps (new_writer-HasSent limit ring)
