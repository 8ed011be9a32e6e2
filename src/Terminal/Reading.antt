-- ===== src/Terminal/Reading.antt =====
-- The read loop of a terminal, with the directory reports in its output: `openPTYShell` of
-- backend/ssh.go, `openLocalPTY` and `emitOsc7Cwd` of backend/localpty.go.
pub mod Followed
use dbx_plugin_ninty_shell.Base.{
  Bool, not, ◌&&◌, Option, none, some, List, [], ◌∷◌, ◌++◌, ◌≡◌, refl, ◌∙◌, ap, append_assoc,
}
use dbx_plugin_ninty_shell.Text.{Bytes}
use dbx_plugin_ninty_shell.Session.{Session, Effect, is_ssh, report_cwd, read_ended}
use dbx_plugin_ninty_shell.Osc7.{feed, osc7_uri_to_path}

-- What the loop sends: the bytes of a read, and what the session's own functions do.
pub data Event : Type 0 where
  output : Bytes → Event
  effect : Effect → Event

abbrev pub effects : List Effect → List Event
effects [] = []
effects (e ∷ es) = effect e ∷ effects es

-- The flag is whether this machine runs Windows; a remote shell has POSIX paths.
unfoldable pub emit_osc7_cwd : Bool → Bytes → Session → Session × List Effect
emit_osc7_cwd windows uri s = report_cwd (osc7_uri_to_path uri (windows && not (is_ssh s.kind))) s

-- `if uri != ""`
on_uri : Bool → Bytes → Session → Session × List Effect
unfolding emit_osc7_cwd
on_uri windows [] s = (s, [])
on_uri windows (c ∷ uri) s = emit_osc7_cwd windows (c ∷ uri) s

-- A read, and what other requests made of the session before it.
pub record Read : Type 0 where
  pub meanwhile : Session → Session
  pub chunk : Bytes

abbrev pub read_of : Bytes → Read
read_of chunk = record { meanwhile = λ s. s; chunk = chunk }

-- What the scanner has pending, and the last report; `feed` always gives an answer.
scanned : Bytes → Option (Bytes × Bytes) → Bytes × Bytes
scanned pending none = (pending, [])
scanned pending (some r) = r

pub forwarded : Bytes → List Event
forwarded [] = []
forwarded (c ∷ chunk) = output (c ∷ chunk) ∷ []

-- One read: what stays pending, the session and what is sent. A read without bytes does nothing.
one_read : Bool → Bytes → Bytes → Session → Bytes × Session × List Event
unfolding scanned on_uri forwarded
one_read windows pending [] s = (pending, s, [])
one_read windows pending (c ∷ chunk) s =
    let (kept, uri) = scanned pending (feed pending (c ∷ chunk)) in
    let (s', es) = on_uri windows uri s in (kept, s', effects es ++ forwarded (c ∷ chunk))

unfoldable pub read_loop : Bool → Bytes → List Read → Session → Session × List Event
unfolding one_read
read_loop windows pending [] s = let (s', es) = read_ended s in (s', effects es)
read_loop windows pending (r ∷ rs) s =
    let (kept, s', es) = one_read windows pending r.chunk (r.meanwhile s) in
    let (last, later) = read_loop windows kept rs s' in (last, es ++ later)

-- The bytes that the loop sends.
unfoldable pub sent : List Event → Bytes
sent [] = []
sent (output chunk ∷ es) = chunk ++ sent es
sent (effect e ∷ es) = sent es

unfoldable pub all_read : List Read → Bytes
all_read [] = []
all_read (r ∷ rs) = r.chunk ++ all_read rs

sent-effects : (es : List Effect) (rest : List Event) → sent (effects es ++ rest) ≡ sent rest
unfolding sent
sent-effects [] rest = refl
sent-effects (e ∷ es) rest = sent-effects es rest

sent-only : (es : List Effect) → sent (effects es) ≡ []
unfolding sent
sent-only [] = refl
sent-only (e ∷ es) = sent-only es

sent-one_read :
    (windows : Bool) (pending chunk : Bytes) (s : Session) (rest : List Event)
    → sent ((one_read windows pending chunk s).2 ++ rest) ≡ chunk ++ sent rest
unfolding one_read sent forwarded
sent-one_read windows pending [] s rest = refl
sent-one_read windows pending (c ∷ chunk) s rest =
    let (kept, uri) = scanned pending (feed pending (c ∷ chunk)) in
    let es = (on_uri windows uri s).1 in
    ap sent (append_assoc (effects es) (output (c ∷ chunk) ∷ []) rest)
    ∙ sent-effects es (output (c ∷ chunk) ∷ rest)

-- The terminal's output is sent whole and in order, however it is cut into reads and whatever other
-- requests do to the session meanwhile.
pub output_forwarded :
    (windows : Bool) (pending : Bytes) (rs : List Read) (s : Session)
    → sent (read_loop windows pending rs s).1 ≡ all_read rs
unfolding read_loop sent all_read
output_forwarded windows pending [] s = sent-only (read_ended s).1
output_forwarded windows pending (r ∷ rs) s =
    let (kept, s', es) = one_read windows pending r.chunk (r.meanwhile s) in
    sent-one_read windows pending r.chunk (r.meanwhile s) (read_loop windows kept rs s').1
    ∙ ap (λ t. r.chunk ++ t) (output_forwarded windows kept rs s')
