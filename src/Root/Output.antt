-- ===== src/Root/Output.antt =====
-- What is read back of a root command's output.
use dbx_plugin_ninty_shell.Base.{
  ℕ, ◌+◌, ◌*◌, ◌-◌, ◌^◌, ◌≤◌, some, List, [], ◌∷◌, ◌++◌, ◌≡◌, refl, arith, length, take, drop, pos,
  append_assoc, take-length-append, drop-length-append, length-append, ap, ◌∙◌,
}
use dbx_plugin_ninty_shell.Text.{Bytes, index, index-append}
use dbx_plugin_ninty_shell.Text.Words.{fields}
use dbx_plugin_ninty_shell.Root.{
  root_atoi, atoi_loop, first_code, trim_lines, output_body, parse_root_script_output,
}

atoi_loop-bound : (n : ℕ) (s : Bytes) (m : ℕ) → n ≤ 2 ^ 30 → atoi_loop n s ≡ some m → m ≤ 2 ^ 30
unfolding atoi_loop
atoi_loop-bound n [] m h e = ground arith
atoi_loop-bound n (c ∷ s) m h e = ground (arith, atoi_loop-bound (n * 10 + (c - b'0')) s m)

-- The code that is read is at most 2 ^ 30, so no step of the reading leaves a 64-bit int.
pub root_atoi-bound : (s : Bytes) (m : ℕ) → root_atoi s ≡ some m → m ≤ 2 ^ 30
unfolding root_atoi
root_atoi-bound s m e = ground (arith, atoi_loop-bound 0 s m)

drop_marker : (a m rest : Bytes) → drop (length a + length m) ((a ++ m) ++ rest) ≡ rest
drop_marker a m rest =
    ap (λ n. drop n ((a ++ m) ++ rest)) {x = length a + length m} (omega (arith, length-append a m))
    ∙ drop-length-append (a ++ m) rest

body_read :
    (out done rest field : Bytes) (more : List Bytes) (code : ℕ)
    → index ((out ++ done) ++ rest) done ≡ some (length out)
    → fields rest ≡ field ∷ more
    → root_atoi field ≡ some code
    → output_body ((out ++ done) ++ rest) done ≡ some (trim_lines out, pos code)
unfolding output_body
body_read out done rest field more code found split number =
    let front : take (length out) ((out ++ done) ++ rest) ≡ out =
      rw append_assoc (take-length-append out (done ++ rest)) in
    let first : first_code (field ∷ more) ≡ pos code = rw (first_code, number) refl in
    rw (output_body, found, drop_marker out done rest, split, first, front) refl

-- Whatever banner or prompt stands in front of the ready marker, and whatever follows the code, the
-- command's output and its exit code are read back, trimmed of line ends, if each marker stands where
-- it first occurs and the code is the first field behind the second marker.
pub root_output_recovered :
    (before ready out done rest field : Bytes) (more : List Bytes) (code : ℕ)
    → index (before ++ ready) ready ≡ some (length before)
    → index (out ++ done) done ≡ some (length out)
    → fields rest ≡ field ∷ more
    → root_atoi field ≡ some code
    → parse_root_script_output ((before ++ ready) ++ ((out ++ done) ++ rest)) ready done
      ≡ some (trim_lines out, pos code)
unfolding parse_root_script_output
root_output_recovered before ready out done rest field more code first second split number =
    let found =
      index-append (before ++ ready) ((out ++ done) ++ rest) ready (length before) first in
    let ended = index-append (out ++ done) rest done (length out) second in
    let body = body_read out done rest field more code ended split number in
    rw (parse_root_script_output, found, drop_marker before ready ((out ++ done) ++ rest)) body
