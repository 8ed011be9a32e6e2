-- ===== src/Stream/Limited.antt =====
-- What a `limitedBuffer` holds.
use mathlib.Core.List.{flatten}
use dbx_plugin_ninty_shell.Base.{
  ℕ, ◌-◌, List, [], ◌∷◌, ◌++◌, ◌≡◌, refl, arith, append-nil, ltb, length, take, append_assoc,
  take_all, take-append, take_none, take_nil, length-append, length-take,
}
use dbx_plugin_ninty_shell.Text.{Bytes}
use dbx_plugin_ninty_shell.Stream.{LimitedBuffer, new_buffer, buffer_write, buffer_write_all}

-- The buffer after some bytes: their first `limit`, with a note whether any were cut off.
abbrev holds : ℕ → Bytes → LimitedBuffer
holds limit seen = record {
  buffer = take limit seen;
  limit = limit;
  truncated = ltb limit (length seen);
}

buffer_write-holds :
    (limit : ℕ) (seen p : Bytes) → (buffer_write (holds limit seen) p).0 ≡ holds limit (seen ++ p)
unfolding buffer_write
buffer_write-holds limit seen p = ground (
  arith,
  take-append limit seen p,
  length-take limit seen,
  length-append seen p,
  take_all (limit - length seen) p,
  take_none (limit - length seen) p,
  append-nil (take limit seen),
)

buffer_write_all-holds :
    (limit : ℕ) (seen : Bytes) (ps : List Bytes)
    → buffer_write_all (holds limit seen) ps ≡ holds limit (seen ++ flatten ps)
unfolding buffer_write_all flatten
buffer_write_all-holds limit seen [] = rw append-nil
buffer_write_all-holds limit seen (p ∷ ps) =
    rw (buffer_write-holds, buffer_write_all-holds limit (seen ++ p) ps, append_assoc)

-- However the output is cut into chunks, the buffer holds its first `limit` bytes, `truncated` is
-- set exactly when the output is longer than that, and each write reports its whole chunk.
pub buffer_refines :
    (limit : ℕ) (ps : List Bytes)
    → (buffer_write_all (new_buffer limit) ps ≡ record {
      buffer = take limit (flatten ps);
      limit = limit;
      truncated = ltb limit (length (flatten ps));
    })
      × ((b : LimitedBuffer) (p : Bytes) → (buffer_write b p).1 ≡ length p)
unfolding new_buffer buffer_write
buffer_refines limit ps =
    (ground (arith, buffer_write_all-holds limit [] ps, take_nil {A = ℕ} limit), λ b p. refl)
