-- ===== src/Terminal/Resize.antt =====
-- Which sizes reach a terminal.
use dbx_plugin_ninty_shell.Base.{
  ℕ, ◌≤◌, ◌%◌, ◌^◌, Bool, false, not, ◌||◌, Option, none, some, List, [], ◌∷◌, ◌≡◌, refl, arith,
  ◌⊎◌, inl, inr, Bool-cases, if◌then◌else◌,
}
use dbx_plugin_ninty_shell.Text.{Bytes, codes}
use dbx_plugin_ninty_shell.Request.{Json, Number}
use dbx_plugin_ninty_shell.Session.{Session, is_ssh}
use dbx_plugin_ninty_shell.Plugin.{Sessions, Rejection, session_for}
use dbx_plugin_ninty_shell.Terminal.{
  Act, window_change, set_size, Reply, rejected, succeeded, below_two, above_limit, resized,
  resize_remote, resize_local, resize_session, size_of, resize_found, pty_resize,
}

-- A number from 2 to 1000, and its whole part as the terminal gets it.
pub record IsSize (n : Number) (size : ℕ) : Type 0 where
  pub whole : size ≡ n.whole
  pub positive : n.negative ≡ false
  pub lower : 2 ≤ size
  pub upper : size ≤ 1000

-- The act is a resize of the session's own terminal, with these sizes.
pub data IsResize (s : Session) (cols rows : Number) (act : Act) : Type 0 where
  of_remote :
      (h w l : ℕ)
      → s.pty_session ≡ some h
      → act ≡ window_change h w l
      → IsSize cols w
      → IsSize rows l
      → IsResize s cols rows act
  of_local :
      (pty w l : ℕ)
      → s.local_pty ≡ some pty
      → act ≡ set_size pty w l
      → IsSize cols w
      → IsSize rows l
      → IsResize s cols rows act

pub data ResizeOutcome (sessions : Sessions) (values : Json) (done : Reply × List Act)
    : Type 0 where
  no_session :
      (r : Rejection)
      → session_for sessions values ≡ inl r
      → done ≡ (rejected r, [])
      → ResizeOutcome sessions values done
  unchanged : done ≡ (succeeded none, []) → ResizeOutcome sessions values done
  was_resized :
      (s : Session) (act : Act) (message : Option Bytes)
      → session_for sessions values ≡ inr s
      → IsResize s (size_of values (codes "cols")) (size_of values (codes "rows")) act
      → done ≡ (succeeded message, act ∷ [])
      → ResizeOutcome sessions values done

in_bounds : (n : Number) → below_two n ≡ false → above_limit n ≡ false → IsSize n n.whole
unfolding below_two above_limit
in_bounds n low high = ground (arith, low, high)

none_holds :
    (a b c d : Bool)
    → (a || b || c || d) ≡ false
    → (a ≡ false) × (b ≡ false) × (c ≡ false) × (d ≡ false)
none_holds a b c d h = ground (arith, h)

-- The conversion to 16 bits keeps the size.
to_word : (n : ℕ) → n ≤ 1000 → n % 2 ^ 16 ≡ n
to_word n h = omega (arith, h)

word-IsSize : (n : Number) → IsSize n n.whole → IsSize n (n.whole % 2 ^ 16)
word-IsSize n h = rw (to_word n.whole h.upper) h

module _ (refusal : Option Bytes) (sessions : Sessions) (values : Json) where
  cols : Number
  cols = size_of values (codes "cols")

  rows : Number
  rows = size_of values (codes "rows")

  abbrev Outcome : Reply × List Act → Type 0
  Outcome = ResizeOutcome sessions values

  remote_resize_outcome :
      (s : Session) (terminal : Option ℕ)
      → session_for sessions values ≡ inr s
      → s.pty_session ≡ terminal
      → IsSize cols cols.whole
      → IsSize rows rows.whole
      → Outcome (resize_remote refusal cols.whole rows.whole terminal)
  unfolding resize_remote resized cols rows
  remote_resize_outcome s none found e w l = unchanged refl
  remote_resize_outcome s (some h) found e w l =
      was_resized s _ refusal found (of_remote h _ _ e refl w l) refl

  local_resize_outcome :
      (s : Session) (terminal : Option ℕ)
      → session_for sessions values ≡ inr s
      → s.local_pty ≡ terminal
      → IsSize cols cols.whole
      → IsSize rows rows.whole
      → Outcome (resize_local cols.whole rows.whole terminal)
  unfolding resize_local resized cols rows
  local_resize_outcome s none found e w l = unchanged refl
  local_resize_outcome s (some pty) found e w l =
      was_resized s _ none found (of_local pty _ _ e refl (word-IsSize cols w) (word-IsSize rows l))
        refl

  sized_outcome :
      (s : Session)
      → session_for sessions values ≡ inr s
      → IsSize cols cols.whole
      → IsSize rows rows.whole
      → Outcome (
          if not (is_ssh s.kind)
          then resize_local cols.whole rows.whole s.local_pty
          else resize_remote refusal cols.whole rows.whole s.pty_session)
  sized_outcome s found w l = elim (Bool-cases (is_ssh s.kind)) [
    | inl e ↦ rw e (remote_resize_outcome s s.pty_session found refl w l)
    | inr e ↦ rw e (local_resize_outcome s s.local_pty found refl w l)
  ]

  session_outcome :
      (s : Session)
      → session_for sessions values ≡ inr s
      → Outcome (resize_session refusal s cols rows)
  unfolding resize_session
  session_outcome s found =
      elim (Bool-cases (below_two cols || below_two rows || above_limit cols || above_limit rows)) [
        | inl e ↦ rw e (unchanged refl)
        | inr e ↦
            let (a, b, c, d) = none_holds _ _ _ _ e in
            rw e (sized_outcome s found (in_bounds cols a c) (in_bounds rows b d))
      ]

  found_outcome :
      (r : Rejection ⊎ Session)
      → session_for sessions values ≡ r
      → Outcome (resize_found refusal values r)
  unfolding resize_found cols rows
  found_outcome (inl r) found = no_session r found refl
  found_outcome (inr s) found = session_outcome s found

  -- A resize request is rejected for want of a session, or changes nothing and succeeds, or gives the
  -- terminal of the session that it names exactly the whole parts of the sizes asked for, each from 2
  -- to 1000, also where they are cut to 16 bits.
  pub pty_resize_outcome : Outcome (pty_resize refusal sessions values)
  unfolding pty_resize
  pty_resize_outcome = found_outcome (session_for sessions values) refl
