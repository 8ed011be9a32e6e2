-- ===== src/Meta/Ring.antt =====
-- A remote command's marker line is read back from the tail of its output.
use mathlib.Core.List.{flatten}
use dbx_plugin_ninty_shell.Base.{
  ℕ, suc, ◌+◌, ◌-◌, ◌≤◌, false, some, List, [], ◌∷◌, ◌++◌, ◌≡◌, ◌≢◌, refl, ◌∙◌, arith, append_assoc,
  length, drop, length-append, drop-length-append, Lacks, All, ℤ, last_n, last_n-append_short,
}
use dbx_plugin_ninty_shell.Text.{
  Bytes, newline, carriage_return, is_line_end, trim_right, trim_right-append_cut,
  trim_right-append_kept, trim_right_clean, last_index, last_index-append, last_index_byte, split_n,
  cut_byte_at, atoi,
}
use dbx_plugin_ninty_shell.Stream.{new_writer, write_all}
use dbx_plugin_ninty_shell.Stream.Forward
use dbx_plugin_ninty_shell.Meta.{ring_tag, parse_ring_meta, parse_tagged, line_start, ring_parts}

-- What the script prints of a code and a directory, without the line feeds around it.
unfoldable pub marker_line : Bytes → Bytes → Bytes → Bytes
marker_line sid code cwd = ring_tag sid ++ (code ++ b' ' ∷ cwd)

-- The line can be told from its surroundings: it holds no line end, and the marker stands in it only
-- at its start.
pub record IsMarkerLine (sid code cwd : Bytes) (n : ℤ) : Type 0 where
  pub one_line : Lacks newline (marker_line sid code cwd)
  pub no_return : Lacks carriage_return (marker_line sid code cwd)
  pub first_only : last_index (marker_line sid code cwd) (ring_tag sid) ≡ some 0
  pub code_reads : atoi code ≡ some n
  pub code_word : Lacks b' ' code

clean_line :
    (s : Bytes) → Lacks newline s → Lacks carriage_return s → All (λ c. is_line_end c ≡ false) s
clean_line [] _ _ = tt
clean_line (c ∷ s) (n, ns) (r, rs) = (ground arith, clean_line s ns rs)

trimmed_output :
    (before line : Bytes)
    → line ≢ []
    → Lacks newline line
    → Lacks carriage_return line
    → trim_right is_line_end (before ++ newline ∷ (line ++ newline ∷ [])) ≡ before ++ newline ∷ line
trimmed_output before line ne nl cr = rw (← append_assoc before (newline ∷ line) (newline ∷ [])) (
    trim_right-append_cut is_line_end (before ++ newline ∷ line) (newline ∷ []) (refl, tt)
    ∙ rw (← append_assoc before (newline ∷ []) line) (
        trim_right-append_kept is_line_end (before ++ newline ∷ []) line ne
          (trim_right_clean is_line_end line (clean_line line nl cr))))

line_start_lem :
    (before line : Bytes)
    → Lacks newline line
    → line_start (before ++ newline ∷ line) ≡ suc (length before)
unfolding line_start
line_start_lem before line nl = ground (arith, last_index_byte before newline line nl)

last_index_line :
    (before line tag : Bytes)
    → last_index line tag ≡ some 0
    → last_index (before ++ newline ∷ line) tag ≡ some (suc (length before))
last_index_line before line tag h = ground (
  arith,
  last_index-append (before ++ newline ∷ []) line tag 0 h,
  append_assoc before (newline ∷ []) line,
  length-append before (newline ∷ []),
)

drop_line :
    (before tag body : Bytes)
    → drop (suc (length before) + length tag) (before ++ newline ∷ (tag ++ body)) ≡ body
drop_line before tag body = ground (
  arith,
  drop-length-append (before ++ newline ∷ tag) body,
  append_assoc before (newline ∷ tag) body,
  length-append before (newline ∷ tag),
)

ring_parts_word :
    (code cwd : Bytes) (n : ℤ)
    → Lacks b' ' code
    → atoi code ≡ some n
    → ring_parts (split_n 2 b' ' (code ++ b' ' ∷ cwd)) ≡ some (n, cwd)
unfolding ring_parts split_n
ring_parts_word code cwd n lacks reads = ground (arith, cut_byte_at b' ' code cwd lacks)

parse_tagged_line :
    (before tag code cwd : Bytes) (n : ℤ)
    → Lacks newline (tag ++ (code ++ b' ' ∷ cwd))
    → last_index (tag ++ (code ++ b' ' ∷ cwd)) tag ≡ some 0
    → Lacks b' ' code
    → atoi code ≡ some n
    → parse_tagged tag (before ++ newline ∷ (tag ++ (code ++ b' ' ∷ cwd))) ≡ some (n, cwd)
unfolding parse_tagged
parse_tagged_line before tag code cwd n nl first lacks reads =
    let line = tag ++ (code ++ b' ' ∷ cwd) in
    ground (
      arith,
      last_index_line before line tag first,
      line_start_lem before line nl,
      drop_line before tag (code ++ b' ' ∷ cwd),
      ring_parts_word code cwd n lacks reads,
    )

module _ (sid code cwd : Bytes) {n : ℤ} (h : IsMarkerLine sid code cwd n) where
  open h use {one_line, no_return, first_only, code_reads, code_word}

  marker_line-ne-nil : marker_line sid code cwd ≢ []
  unfolding marker_line ring_tag
  marker_line-ne-nil e = cc

  -- Behind any output and a line feed, and in front of one, the marker line gives back the exit
  -- code and the directory.
  pub parse_ring_meta-marker :
      (before : Bytes)
      → parse_ring_meta (before ++ newline ∷ (marker_line sid code cwd ++ newline ∷ [])) sid
        ≡ some (n, cwd)
  unfolding parse_ring_meta marker_line
  parse_ring_meta-marker before =
      rw
        (
          trimmed_output before (marker_line sid code cwd) marker_line-ne-nil one_line no_return,
          parse_ring_meta,
        )
        (parse_tagged_line before (ring_tag sid) code cwd n one_line first_only code_word
          code_reads)

  -- A remote command's output ends in the marker line. Whatever the command printed before it and
  -- however the output is cut into chunks, the ring of the writer gives the exit code and the
  -- directory back, if the line with its two line feeds fits the ring.
  pub ring_recovers :
      (limit ring : ℕ) (out : Bytes) (ps : List Bytes)
      → flatten ps ≡ out ++ newline ∷ (marker_line sid code cwd ++ newline ∷ [])
      → length (marker_line sid code cwd) + 2 ≤ ring
      → parse_ring_meta (write_all (new_writer limit ring) ps).tail sid ≡ some (n, cwd)
  ring_recovers limit ring out ps e fits =
      let ending = newline ∷ (marker_line sid code cwd ++ newline ∷ []) in
      rw
        (
          (Forward.writer_refines limit ring ps).ring_tail,
          e,
          last_n-append_short ring out ending
              (omega (arith, length-append (marker_line sid code cwd) (newline ∷ []))),
        )
        (parse_ring_meta-marker (last_n (ring - length ending) out))
