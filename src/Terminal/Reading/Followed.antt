-- ===== src/Terminal/Reading/Followed.antt =====
-- A directory report in the output of a remote terminal.
use mathlib.Core.List.{flatten}
use dbx_plugin_ninty_shell.Base.{
  ℕ, ◌≤◌, ◌<◌, Bool, true, false, not, ◌&&◌, none, some, List, [], ◌∷◌, ◌++◌, ◌≡◌, ◌≢◌, refl, ◌∙◌,
  sym, ap, append_assoc, arith, length, length-append, map, Lacks,
}
use dbx_plugin_ninty_shell.Text.{Bytes, codes, is_empty, has_prefix, trim_space, index}
use dbx_plugin_ninty_shell.Text.Equal.{bytes_eq}
use dbx_plugin_ninty_shell.Session.{Session, Effect, emit_cwd, is_ssh, report_cwd}
use dbx_plugin_ninty_shell.Osc7.{osc_start, keep_last, feed, osc7_uri_to_path}
use dbx_plugin_ninty_shell.Osc7.Begin.{BeginsFirst}
use dbx_plugin_ninty_shell.Osc7.Found.{feed_early, feed_last}
use dbx_plugin_ninty_shell.Osc7.Path.{osc7_round_trip}
use dbx_plugin_ninty_shell.Terminal.Reading.{
  Event, output, effect, effects, forwarded, one_read, on_uri, scanned, emit_osc7_cwd, Read,
  read_of, read_loop,
}

early_read :
    (windows : Bool) (pending p : Bytes) (c : ℕ) (chunk : Bytes) (s : Session)
    → feed pending (c ∷ chunk) ≡ some (p, [])
    → one_read windows pending (c ∷ chunk) s ≡ (p, s, forwarded (c ∷ chunk))
unfolding one_read scanned on_uri forwarded
early_read windows pending p c chunk s nothing = rw nothing refl

last_read :
    (windows : Bool) (pending b p uri : Bytes) (s followed : Session) (es : List Effect)
    → b ≢ []
    → feed pending b ≡ some (p, uri)
    → on_uri windows uri s ≡ (followed, es)
    → one_read windows pending b s ≡ (p, followed, effects es ++ output b ∷ [])
unfolding one_read scanned forwarded
last_read windows pending [] p uri s followed es some_left found told = absurd (some_left refl)
last_read windows pending (c ∷ b) p uri s followed es some_left found told = rw (found, told) refl

then_read :
    (windows : Bool) (pending p chunk : Bytes) (rest : List Read) (s s' t : Session)
    (es later : List Event)
    → one_read windows pending chunk s ≡ (p, s', es)
    → read_loop windows p rest s' ≡ (t, later)
    → read_loop windows pending (read_of chunk ∷ rest) s ≡ (t, es ++ later)
unfolding read_loop
then_read windows pending p chunk rest s s' t es later now next = rw (now, next) refl

-- What a list of reads sends, if none of them reports a directory.
pub outputs : List Bytes → List Event
outputs [] = []
outputs (chunk ∷ chunks) = forwarded chunk ++ outputs chunks

report_changed :
    (dir : Bytes) (s : Session)
    → is_empty dir ≡ false
    → bytes_eq dir s.cwd ≡ false
    → report_cwd dir s ≡ (record s { cwd = dir }, emit_cwd dir ∷ [])
unfolding report_cwd
report_changed dir s filled new = rw (report_cwd, filled, new) refl

module _ (dir : Bytes) where
  -- The report that the prompt of the remote shell prints.
  abbrev uri : Bytes
  uri = codes "file://" ++ dir

  posix : (windows b : Bool) → b ≡ true → (windows && not b) ≡ false
  posix windows b remote = ground (arith, remote)

  is_filled : (d : Bytes) → has_prefix d (codes "/") ≡ true → is_empty d ≡ false
  unfolding has_prefix
  is_filled [] slash = ground (arith, slash)
  is_filled (c ∷ d) slash = refl

  remote_report :
      (windows : Bool) (s : Session)
      → is_ssh s.kind ≡ true
      → has_prefix dir (codes "/") ≡ true
      → Lacks b'%' dir
      → trim_space uri ≡ uri
      → bytes_eq dir s.cwd ≡ false
      → on_uri windows uri s ≡ (record s { cwd = dir }, emit_cwd dir ∷ [])
  unfolding on_uri emit_osc7_cwd
  remote_report windows s remote slash plain trimmed new =
      ap (λ w. report_cwd (osc7_uri_to_path uri w) s) (posix windows (is_ssh s.kind) remote)
      ∙ ap (λ d. report_cwd d s) (osc7_round_trip dir slash plain trimmed)
      ∙ report_changed dir s (is_filled dir slash) new

  longer_some : (after last : Bytes) → length after < length last → last ≢ []
  longer_some after last h e = ground (arith, h, e)

  -- A remote shell that reports its directory makes it the session's directory, with one event, when the
  -- last byte of the report is read, whatever output stands in front of the report and behind it and
  -- however all of it is cut into reads, what the scanner has pending included; and the later reads go on
  -- from there. This holds if the directory is absolute, new to the session and has no percent sign, BEL
  -- or ESC, if no white space stands around the report's text, which has at most 8192 bytes, if no other
  -- report begins in these reads, and if no other request changes the session during them.
  pub terminal_followed :
      (windows : Bool) (pending before after : Bytes) (reads : List Bytes) (last : Bytes)
      (rest : List Read) (s : Session)
      → pending ++ (flatten reads ++ last) ≡ before ++ (osc_start ++ (uri ++ 7 ∷ after))
      → BeginsFirst before
      → index after osc_start ≡ none
      → length after < length last
      → Lacks 7 uri
      → Lacks 27 uri
      → length uri ≤ 8192
      → is_ssh s.kind ≡ true
      → has_prefix dir (codes "/") ≡ true
      → Lacks b'%' dir
      → trim_space uri ≡ uri
      → bytes_eq dir s.cwd ≡ false
      → let (t, events) = read_loop windows (keep_last 64 after) rest (record s { cwd = dir }) in
        read_loop windows pending (map read_of reads ++ read_of last ∷ rest) s
        ≡ (t, outputs reads ++ effect (emit_cwd dir) ∷ output last ∷ events)
  unfolding read_loop outputs forwarded flatten
  terminal_followed windows pending before after [] last rest s e first clean more bel esc fits
        remote slash plain trimmed new =
      let found = feed_last uri after bel esc pending last before e first clean in
      let told = remote_report windows s remote slash plain trimmed new in
      let ended =
        last_read windows pending last (keep_last 64 after) uri s (record s { cwd = dir })
          (emit_cwd dir ∷ []) (longer_some after last more) found told in
      rw ended refl
  terminal_followed windows pending before after ([] ∷ reads) last rest s e first clean more bel esc
        fits remote slash plain trimmed new =
      terminal_followed windows pending before after reads last rest s e first clean more bel esc
        fits remote slash plain trimmed new
  terminal_followed windows pending before after ((c ∷ chunk) ∷ reads) last rest s e first clean
        more bel esc fits remote slash plain trimmed new =
      let joined =
        append_assoc pending (c ∷ chunk) (flatten reads ++ last)
        ∙ ap (λ t. pending ++ t) (sym (append_assoc (c ∷ chunk) (flatten reads) last))
        ∙ e in
      let left : length after < length (flatten reads ++ last) =
        omega (arith, more, length-append (flatten reads) last) in
      let (p, before', found, (kept, first')) =
        feed_early uri after bel esc pending (c ∷ chunk) (flatten reads ++ last) before joined first
          left fits in
      let later =
        terminal_followed windows p before' after reads last rest s kept first' clean more bel esc
          fits remote slash plain trimmed new in
      then_read windows pending p (c ∷ chunk) (map read_of reads ++ read_of last ∷ rest) s s _ _ _
        (early_read windows pending p c chunk s found) later
