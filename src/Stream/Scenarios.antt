-- ===== src/Stream/Scenarios.antt =====
-- Streams on concrete output.
use mathlib.Core.List.{flatten}
use dbx_plugin_ninty_shell.Base.{true, false, [], ◌∷◌, ◌≡◌, refl, length}
use dbx_plugin_ninty_shell.Text.{Bytes, codes}
use dbx_plugin_ninty_shell.Stream.{
  LimitedBuffer, new_writer, write, write_all, new_buffer, buffer_write, buffer_write_all,
}
use dbx_plugin_ninty_shell.Stream.Forward
use dbx_plugin_ninty_shell.Stream.Forward.{HasSent}
use dbx_plugin_ninty_shell.Stream.Limited

writer_refines_example :
    HasSent 4 3
      (flatten (codes "abc" ∷ codes "de" ∷ []))
      (write_all (new_writer 4 3) (codes "abc" ∷ codes "de" ∷ []))
writer_refines_example = Forward.writer_refines 4 3 (codes "abc" ∷ codes "de" ∷ [])

buffer_refines_example :
    (buffer_write_all (new_buffer 4) (codes "abc" ∷ codes "de" ∷ [])
      ≡ record { buffer = codes "abcd"; limit = 4; truncated = true })
    × ((b : LimitedBuffer) (p : Bytes) → (buffer_write b p).1 ≡ length p)
unfolding flatten
buffer_refines_example = Limited.buffer_refines 4 (codes "abc" ∷ codes "de" ∷ [])

-- An output of exactly the limit counts as truncated, although nothing was cut off.
exact_limit_flag : (write_all (new_writer 3 0) (codes "abc" ∷ [])).truncated ≡ true
unfolding write_all write new_writer
exact_limit_flag = refl

exact_limit_buffer : (buffer_write_all (new_buffer 3) (codes "abc" ∷ [])).truncated ≡ false
unfolding buffer_write_all buffer_write new_buffer
exact_limit_buffer = refl
