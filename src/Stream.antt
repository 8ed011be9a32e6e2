-- ===== src/Stream.antt =====
-- The output buffers: `streamWriter` of backend/main.go, which forwards a command's output as
-- shell/output events up to a cap and keeps its tail, and `limitedBuffer` of backend/dockerapi.go,
-- which collects output up to a cap. The emitter is the list of the chunks that were sent.
pub mod Forward
pub mod Limited
mod Scenarios
use dbx_plugin_ninty_shell.Base.{
  ℕ, ◌+◌, ◌-◌, ◌*◌, ◌^◌, Bool, true, false, List, [], ◌∷◌, ◌++◌, ltb, leb, if◌then◌else◌, length,
  take, drop,
}
use dbx_plugin_ninty_shell.Text.{Bytes}

abbrev pub max_output_bytes : ℕ
max_output_bytes = 4 * 1024 * 1024

abbrev pub max_pty_output_bytes : ℕ
max_pty_output_bytes = 2 ^ 30

pub record StreamWriter : Type 0 where
  pub limit : ℕ
  pub written : ℕ
  pub truncated : Bool
  pub ring_size : ℕ
  pub tail : Bytes
  pub emitted : List Bytes

-- A writer as the two `&streamWriter{…}` literals make it.
unfoldable pub new_writer : ℕ → ℕ → StreamWriter
new_writer limit ring_size = record {
  limit = limit;
  written = 0;
  truncated = false;
  ring_size = ring_size;
  tail = [];
  emitted = [];
}

keep_tail : ℕ → Bytes → Bytes
keep_tail size tail = if ltb size (length tail) then drop (length tail - size) tail else tail

-- The first `if` of `Write`, on the ring.
write_ring : StreamWriter → Bytes → StreamWriter
unfolding keep_tail
write_ring w p =
    if ltb 0 w.ring_size then record w { tail = keep_tail w.ring_size (w.tail ++ p) } else w

-- The second, on the events.
write_event : StreamWriter → Bytes → StreamWriter
write_event w p =
    let remaining = w.limit - w.written in
    let chunk = if ltb remaining (length p) then take remaining p else p in
    let written = w.written + length chunk in
    if ltb w.written w.limit
    then record w {
      emitted = w.emitted ++ chunk ∷ [];
      written = written;
      truncated = if leb w.limit written then true else w.truncated;
    }
    else w

-- `Write` returns the new writer and the count that it reports.
unfoldable pub write : StreamWriter → Bytes → StreamWriter × ℕ
unfolding write_ring write_event
write w p = (write_event (write_ring w p) p, length p)

-- A command's output arrives in any number of chunks.
unfoldable pub write_all : StreamWriter → List Bytes → StreamWriter
write_all w [] = w
write_all w (p ∷ ps) = write_all (write w p).0 ps

pub record LimitedBuffer : Type 0 where
  pub buffer : Bytes
  pub limit : ℕ
  pub truncated : Bool

unfoldable pub new_buffer : ℕ → LimitedBuffer
new_buffer limit = record { buffer = []; limit = limit; truncated = false }

unfoldable pub buffer_write : LimitedBuffer → Bytes → LimitedBuffer × ℕ
buffer_write b p =
    let remaining = b.limit - length b.buffer in
    (
      if ltb 0 remaining
          then (if ltb remaining (length p)
              then record b { buffer = b.buffer ++ take remaining p; truncated = true }
              else record b { buffer = b.buffer ++ p })
          else if ltb 0 (length p)
          then record b { truncated = true }
          else b,
      length p,
    )

unfoldable pub buffer_write_all : LimitedBuffer → List Bytes → LimitedBuffer
buffer_write_all b [] = b
buffer_write_all b (p ∷ ps) = buffer_write_all (buffer_write b p).0 ps
