-- ===== src/Terminal/Local/Cleanup.antt =====
-- The files that a local terminal makes for its prompt.
use dbx_plugin_ninty_shell.Base.{
  ℕ, Option, none, some, List, [], ◌∷◌, ◌++◌, ◌≡◌, refl, ◌∙◌, ap, ◌⊎◌, inl, inr, Bool-cases,
  if◌then◌else◌,
}
use dbx_plugin_ninty_shell.Text.{Bytes, codes}
use dbx_plugin_ninty_shell.Text.Equal.{bytes_eq, bytes_eq_refl}
use dbx_plugin_ninty_shell.Text.Words.{to_lower}
use dbx_plugin_ninty_shell.Local.{Machine}
use dbx_plugin_ninty_shell.Terminal.Local.{
  PtyHost, Injection, made, removed, Written, kept_unless, write_bash, write_zsh, Prepared, with_rc,
  with_zdotdir, prepared, LocalPty, cleaned, pty_started, start_prepared, start_local_pty,
  close_local_pty, local_pty_argv, local_pty_env,
}

abbrev without : Bytes → List Bytes → List Bytes
without path [] = []
without path (p ∷ ps) = let rest = without path ps in if bytes_eq p path then ps else p ∷ rest

-- The files that are there behind what was done.
pub left : List Injection → List Bytes → List Bytes
left [] files = files
left (made path ∷ is) files = left is (path ∷ files)
left (removed path ∷ is) files = left is (without path files)

left-append :
    (xs ys : List Injection) (files : List Bytes) → left (xs ++ ys) files ≡ left ys (left xs files)
unfolding left
left-append [] ys files = refl
left-append (made path ∷ xs) ys files = left-append xs ys (path ∷ files)
left-append (removed path ∷ xs) ys files = left-append xs ys (without path files)

abbrev pub kept : Option Bytes → List Bytes
kept none = []
kept (some path) = path ∷ []

-- What is left is what the cleanup removes.
abbrev IsCovered : Option Bytes → List Injection → Type 0
IsCovered cleanup did = left did [] ≡ kept cleanup

left-cleaned : (cleanup : Option Bytes) → left (cleaned cleanup) (kept cleanup) ≡ []
unfolding left cleaned
left-cleaned none = refl
left-cleaned (some path) = rw (bytes_eq_refl path) refl

cleaned_after :
    (cleanup : Option Bytes) (did : List Injection)
    → IsCovered cleanup did
    → left (did ++ cleaned cleanup) [] ≡ []
cleaned_after cleanup did h =
    left-append did (cleaned cleanup) [] ∙ ap (left (cleaned cleanup)) h ∙ left-cleaned cleanup

kept-IsCovered :
    (path : Bytes) (err : Option Bytes)
    → IsCovered (kept_unless path err).0 (kept_unless path err).1
unfolding left kept_unless
kept-IsCovered path none = refl
kept-IsCovered path (some e) = rw (bytes_eq_refl path) refl

bash-IsCovered : (h : PtyHost) (r : Bytes ⊎ Bytes) → IsCovered (write_bash h r).0 (write_bash h r).1
unfolding left write_bash
bash-IsCovered h (inl e) = refl
bash-IsCovered h (inr path) = kept-IsCovered path _

zsh-IsCovered :
    (m : Machine) (h : PtyHost) (r : Bytes ⊎ Bytes)
    → IsCovered (write_zsh m h r).0 (write_zsh m h r).1
unfolding left write_zsh
zsh-IsCovered m h (inl e) = refl
zsh-IsCovered m h (inr dir) = kept-IsCovered dir _

rc-IsCovered :
    (argv env : List Bytes) (w : Written)
    → IsCovered w.0 w.1
    → IsCovered (with_rc argv env w).cleanup (with_rc argv env w).did
unfolding with_rc
rc-IsCovered argv env (none, did) h = h
rc-IsCovered argv env (some rc, did) h = h

zdotdir-IsCovered :
    (argv env : List Bytes) (w : Written)
    → IsCovered w.0 w.1
    → IsCovered (with_zdotdir argv env w).cleanup (with_zdotdir argv env w).did
unfolding with_zdotdir
zdotdir-IsCovered argv env (none, did) h = h
zdotdir-IsCovered argv env (some dir, did) h = h

prepared-IsCovered :
    (m : Machine) (h : PtyHost) (shell : Bytes) (argv env : List Bytes)
    → IsCovered (prepared m h shell argv env).cleanup (prepared m h shell argv env).did
unfolding prepared left
prepared-IsCovered m h shell argv env =
    elim (Bool-cases (bytes_eq (to_lower (m.base shell)) (codes "zsh"))) [
      | inl z ↦ rw z (zdotdir-IsCovered argv env _ (zsh-IsCovered m h h.make_temp))
      | inr z ↦ elim (Bool-cases (bytes_eq (to_lower (m.base shell)) (codes "bash"))) [
        | inl b ↦ rw (z, b) (rc-IsCovered argv env _ (bash-IsCovered h h.make_temp))
        | inr b ↦ rw (z, b) refl
      ]
    ]

-- A terminal that did not start leaves no file; of one that did, its first Close removes what is left, and a
-- second one removes nothing.
pub data PtyOutcome (r : (Bytes ⊎ LocalPty) × List Injection) : Type 0 where
  not_started : (e : Bytes) → r.0 ≡ inl e → left r.1 [] ≡ [] → PtyOutcome r
  started :
      (pty : LocalPty)
      → r.0 ≡ inr pty
      → left (r.1 ++ (close_local_pty pty).1) [] ≡ []
      → (close_local_pty (close_local_pty pty).0).1 ≡ []
      → PtyOutcome r

pty_started_outcome :
    (p : Prepared) (r : Bytes ⊎ ℕ) → IsCovered p.cleanup p.did → PtyOutcome (pty_started p r)
unfolding pty_started close_local_pty
pty_started_outcome p (inl e) h = not_started e refl (cleaned_after p.cleanup p.did h)
pty_started_outcome p (inr file) h = started _ refl (cleaned_after p.cleanup p.did h) refl

-- Whatever the operating system answers, a local terminal that does not start leaves no file behind that it
-- made for the prompt; one that starts leaves none behind its first Close, and closing it again removes
-- nothing.
pub start_local_pty_outcome :
    (utf16 : Bytes → List ℕ) (base64 : Bytes → Bytes) (m : Machine) (h : PtyHost)
    (shell dir : Bytes)
    → PtyOutcome (start_local_pty utf16 base64 m h shell dir)
unfolding start_local_pty start_prepared
start_local_pty_outcome utf16 base64 m h shell dir =
    let argv = local_pty_argv utf16 base64 m shell in
    let env = local_pty_env (λ env. env) m in
    let p = prepared m h shell argv env in
    pty_started_outcome p (h.start p.argv p.env dir) (prepared-IsCovered m h shell argv env)
