-- ===== src/Plugin/Registry/Place.antt =====
-- The places of a session between its making and its shutdown, and what an operation does to them.
use mathlib.Core.Path.{subst}
use dbx_plugin_ninty_shell.Base.{
  ℕ, Bool, true, false, ◌||◌, Option, none, some, List, [], ◌∷◌, ◌++◌, ◌≡◌, ◌⊎◌, inl, inr, refl,
  sym, arith, ◌==◌, Bool-cases,
}
use dbx_plugin_ninty_shell.Text.{Bytes}
use dbx_plugin_ninty_shell.Text.Equal.{bytes_eq, bytes_eq_iff}
use dbx_plugin_ninty_shell.Session.{
  Session, exec_claim, exec_failed, exec_started, finish, cancel, shutdown, mark_dead, shell_config,
  report_cwd, read_ended, fall_back,
}
use dbx_plugin_ninty_shell.Session.Shutdown.{shutdown_stops}
use dbx_plugin_ninty_shell.Plugin.{find_session}
use dbx_plugin_ninty_shell.Plugin.Registry.{
  Work, do_work, put, due, claim, fail_start, cancel_it, die, end_read, start, end_run, configure,
  follow, open_terminal,
}

abbrev pub has : ℕ → List ℕ → Bool
has a [] = false
has a (b ∷ bs) = b == a || has a bs

-- A session with this identifier and address is being connected, registered under its identifier, about
-- to be shut down, or stopped.
pub data HasPlace (sessions : List (Bytes × ℕ)) (connecting ending : List ℕ) (id : Bytes)
    (stopping : Bool) (a : ℕ) : Type 0 where
  in_connect : has a connecting ≡ true → HasPlace sessions connecting ending id stopping a
  registered : find_session sessions id ≡ some a → HasPlace sessions connecting ending id stopping a
  in_shutdown : has a ending ≡ true → HasPlace sessions connecting ending id stopping a
  stopped : stopping ≡ true → HasPlace sessions connecting ending id stopping a

-- A session keeps its identifier, and a stopped one stays stopped.
abbrev pub IsLater : Session → Session → Type 0
IsLater s s' = (s'.id ≡ s.id) × (s.stopping ≡ true → s'.stopping ≡ true)

pub work-IsLater : (work : Work) (s : Session) → IsLater s (do_work work s)
unfolding do_work exec_claim exec_failed exec_started finish cancel mark_dead shell_config
    report_cwd read_ended
work-IsLater claim s = (ground arith, λ h. ground (arith, h))
work-IsLater fail_start s = (refl, λ h. h)
work-IsLater cancel_it s = (ground arith, λ h. ground (arith, h))
work-IsLater die s = (refl, λ h. h)
work-IsLater end_read s = (ground arith, λ h. ground (arith, h))
work-IsLater (start run) s = (refl, λ h. h)
work-IsLater (end_run o) s = (refl, λ h. h)
work-IsLater (configure inject) s = (refl, λ h. h)
work-IsLater (follow dir) s = (ground arith, λ h. ground (arith, h))
work-IsLater (open_terminal pty) s = (refl, λ h. h)

pub fall_back-IsLater : (s : Session) → IsLater s (fall_back s).0
unfolding fall_back
fall_back-IsLater s = (ground arith, λ h. ground (arith, h))

-- A later state of the session has its place.
pub later-HasPlace :
    {sessions : List (Bytes × ℕ)} {connecting ending : List ℕ} {a : ℕ} (s s' : Session)
    → IsLater s s'
    → HasPlace sessions connecting ending s.id s.stopping a
    → HasPlace sessions connecting ending s'.id s'.stopping a
later-HasPlace s s' (same, stop) (in_connect h) = in_connect h
later-HasPlace s s' (same, stop) (registered h) = registered (rw same h)
later-HasPlace s s' (same, stop) (in_shutdown h) = in_shutdown h
later-HasPlace s s' (same, stop) (stopped h) = stopped (stop h)

-- One more connecting session takes no place away.
pub weaken :
    {sessions : List (Bytes × ℕ)} {connecting ending : List ℕ} {id : Bytes} {stopping : Bool}
    {a : ℕ} (b : ℕ)
    → HasPlace sessions connecting ending id stopping a
    → HasPlace sessions (b ∷ connecting) ending id stopping a
weaken b (in_connect h) = in_connect (ground (arith, h))
weaken b (registered h) = registered h
weaken b (in_shutdown h) = in_shutdown h
weaken b (stopped h) = stopped h

pub put-IsLater :
    (a b : ℕ) (s : Session) (heap : ℕ → Session)
    → IsLater (heap a) s
    → IsLater (heap b) (put a s heap b)
unfolding put
put-IsLater a b s heap h = elim (Bool-cases (b == a)) [
  | inl e ↦
      let same : b ≡ a = ground (arith, e) in
      rw (put, e) (subst (λ c. IsLater (heap c) s) (sym same) h)
  | inr e ↦ rw (put, e) (refl, λ g. g)
]

pub put_stops : (a : ℕ) (heap : ℕ → Session) → (put a (shutdown (heap a)).0 heap a).stopping ≡ true
unfolding put
put_stops a heap =
    let same : a == a ≡ true = ground arith in rw (put, same) ((shutdown_stops (heap a)).1)

-- Taking one element out of a list.
pub has_middle :
    (b : ℕ) (xs : List ℕ) (a : ℕ) (ys : List ℕ)
    → has b (xs ++ a ∷ ys) ≡ true
    → (a ≡ b) ⊎ (has b (xs ++ ys) ≡ true)
has_middle b [] a ys h = ground (arith, h)
has_middle b (x ∷ xs) a ys h = ground (arith, h, has_middle b xs a ys)

-- A session under the written identifier is about to be shut down; the others stay where they are.
pub due-has :
    (a : ℕ) (o : Option ℕ) (ending : List ℕ) → has a ending ≡ true → has a (due o ending) ≡ true
unfolding due
due-has a none ending h = h
due-has a (some b) ending h = ground (arith, h)

pub due-first : (a : ℕ) (o : Option ℕ) (ending : List ℕ) → o ≡ some a → has a (due o ending) ≡ true
unfolding due
due-first a none ending h = absurd (ground (arith, h))
due-first a (some b) ending h = ground (arith, h)

pub rewrite-HasPlace :
    (before after : List (Bytes × ℕ)) (connecting ending : List ℕ) (key id : Bytes)
    (stopping : Bool) (a : ℕ)
    → ((other : Bytes)
        → bytes_eq key other ≡ false
        → find_session after other ≡ find_session before other)
    → HasPlace before connecting ending id stopping a
    → HasPlace after connecting (due (find_session before key) ending) id stopping a
rewrite-HasPlace before after connecting ending key id stopping a same (in_connect h) = in_connect h
rewrite-HasPlace before after connecting ending key id stopping a same (stopped h) = stopped h
rewrite-HasPlace before after connecting ending key id stopping a same (in_shutdown h) =
    in_shutdown (due-has a (find_session before key) ending h)
rewrite-HasPlace before after connecting ending key id stopping a same (registered h) =
    elim (Bool-cases (bytes_eq key id)) [
      | inl e ↦ in_shutdown (due-first a _ ending (rw ((bytes_eq_iff key id).0 e) h))
      | inr e ↦ registered (rw (same id e) h)
    ]

-- A session that leaves `connecting` needs another place.
pub publish_one-HasPlace :
    (sessions : List (Bytes × ℕ)) (xs ys ending : List ℕ) (b : ℕ) (id : Bytes) (stopping : Bool)
    (a : ℕ)
    → (b ≡ a → HasPlace sessions (xs ++ ys) ending id stopping a)
    → HasPlace sessions (xs ++ b ∷ ys) ending id stopping a
    → HasPlace sessions (xs ++ ys) ending id stopping a
publish_one-HasPlace sessions xs ys ending b id stopping a other (in_connect h) =
    elim (has_middle a xs b ys h) [ inl e ↦ other e | inr g ↦ in_connect g ]
publish_one-HasPlace sessions xs ys ending b id stopping a other (registered h) = registered h
publish_one-HasPlace sessions xs ys ending b id stopping a other (in_shutdown h) = in_shutdown h
publish_one-HasPlace sessions xs ys ending b id stopping a other (stopped h) = stopped h

-- The same for `ending`.
pub end_one-HasPlace :
    (sessions : List (Bytes × ℕ)) (connecting xs ys : List ℕ) (b : ℕ) (id : Bytes) (stopping : Bool)
    (a : ℕ)
    → (b ≡ a → HasPlace sessions connecting (xs ++ ys) id stopping a)
    → HasPlace sessions connecting (xs ++ b ∷ ys) id stopping a
    → HasPlace sessions connecting (xs ++ ys) id stopping a
end_one-HasPlace sessions connecting xs ys b id stopping a other (in_shutdown h) =
    elim (has_middle a xs b ys h) [ inl e ↦ other e | inr g ↦ in_shutdown g ]
end_one-HasPlace sessions connecting xs ys b id stopping a other (registered h) = registered h
end_one-HasPlace sessions connecting xs ys b id stopping a other (in_connect h) = in_connect h
end_one-HasPlace sessions connecting xs ys b id stopping a other (stopped h) = stopped h
