-- ===== src/Plugin/Registry/Once.antt =====
-- How many places a session has at a time.
use mathlib.Core.Path.{subst}
use dbx_plugin_ninty_shell.Base.{
  ℕ, ◌+◌, ◌≤◌, Bool, true, false, some, List, [], ◌∷◌, ◌++◌, ◌≡◌, inl, inr, refl, sym, arith, ◌==◌,
  Bool-cases,
}
use dbx_plugin_ninty_shell.Text.{Bytes}
use dbx_plugin_ninty_shell.Text.Equal.{bytes_eq}
use dbx_plugin_ninty_shell.Session.{Session, fall_back}
use dbx_plugin_ninty_shell.Plugin.{find_session}
use dbx_plugin_ninty_shell.Plugin.Table.{set_session, delete_session}
use dbx_plugin_ninty_shell.Plugin.Registry.{
  World, due, create, publish, disconnect, end_session, work_on, fallback_session, connect_publish,
  disconnect_take, Step, Reach, created, published, disconnected, ended, worked, fell_back, here,
  next, IsInitial,
}
use dbx_plugin_ninty_shell.Plugin.Registry.Place.{has}
use dbx_plugin_ninty_shell.Plugin.Registry.Kept.{noted-sessions}

abbrev one_if : Bool → ℕ
one_if true = 1
one_if false = 0

count : ℕ → List ℕ → ℕ
count a [] = 0
count a (b ∷ bs) = one_if (b == a) + count a bs

count_table : ℕ → List (Bytes × ℕ) → ℕ
count_table a [] = 0
count_table a ((key, b) ∷ rest) = one_if (b == a) + count_table a rest

count-middle :
    (a : ℕ) (xs : List ℕ) (b : ℕ) (ys : List ℕ)
    → count a (xs ++ b ∷ ys) ≡ one_if (b == a) + count a (xs ++ ys)
unfolding count
count-middle a [] b ys = refl
count-middle a (x ∷ xs) b ys = rw (count-middle a xs b ys) (omega arith)

count-has : (a : ℕ) (l : List ℕ) → count a l ≡ 0 → has a l ≡ false
unfolding count
count-has a [] h = refl
count-has a (b ∷ bs) h = ground (arith, h, count-has a bs)

count_table-find :
    (a : ℕ) (key : Bytes) (table : List (Bytes × ℕ))
    → find_session table key ≡ some a
    → 1 ≤ count_table a table
unfolding count_table find_session
count_table-find a key [] h = absurd (ground (arith, h))
count_table-find a key ((k, b) ∷ rest) h = ground (arith, h, count_table-find a key rest)

count_table-delete :
    (a : ℕ) (key : Bytes) (table : List (Bytes × ℕ))
    → count_table a (delete_session key table) ≤ count_table a table
unfolding count_table delete_session
count_table-delete a key [] = omega arith
count_table-delete a key ((k, b) ∷ rest) = ground (arith, count_table-delete a key rest)

-- What is taken out of the table is what becomes due.
count-due :
    (a : ℕ) (key : Bytes) (table : List (Bytes × ℕ)) (ending : List ℕ)
    → count_table a (delete_session key table) + count a (due (find_session table key) ending)
      ≤ count_table a table + count a ending
unfolding count count_table delete_session find_session due
count-due a key [] ending = omega arith
count-due a key ((k, b) ∷ rest) ending = elim (Bool-cases (bytes_eq k key)) [
  | inl e ↦ ground (arith, e, count_table-delete a key rest)
  | inr e ↦ ground (arith, e, count-due a key rest ending)
]

tally : ℕ → World → ℕ
unfolding count count_table
tally a w = count a w.connecting + (count_table a w.registry.sessions + count a w.ending)

-- An address is in at most one place, and in none before it is made.
abbrev AtMostOnce : World → Type 0
AtMostOnce w = (a : ℕ) → (tally a w ≤ 1) × (w.made ≤ a → tally a w ≡ 0)

create-AtMostOnce : (s : Session) (w : World) → AtMostOnce w → AtMostOnce (create s w)
unfolding create tally count
create-AtMostOnce s w h a = ground (arith, h a)

publish-le :
    (w : World) (xs : List ℕ) (b : ℕ) (ys : List ℕ) (a : ℕ)
    → w.connecting ≡ xs ++ b ∷ ys
    → tally a (publish b (xs ++ ys) w) ≤ tally a w
unfolding tally publish connect_publish set_session count_table
publish-le w xs b ys a e =
    rw e (
      omega (arith, count-middle a xs b ys, count-due a (w.heap b).id w.registry.sessions w.ending))

disconnect-le : (w : World) (id : Bytes) (a : ℕ) → tally a (disconnect id w) ≤ tally a w
unfolding tally disconnect disconnect_take
disconnect-le w id a = omega (arith, count-due a id w.registry.sessions w.ending)

end-le :
    (w : World) (xs : List ℕ) (b : ℕ) (ys : List ℕ) (a : ℕ)
    → w.ending ≡ xs ++ b ∷ ys
    → tally a (end_session b (xs ++ ys) w) ≤ tally a w
unfolding tally end_session
end-le w xs b ys a e = rw e (omega (arith, count-middle a xs b ys))

fall_back-le : (w : World) (b : ℕ) (a : ℕ) → tally a (fallback_session b w) ≤ tally a w
unfolding tally fallback_session
fall_back-le w b a =
    rw (noted-sessions (fall_back (w.heap b)).2 (w.heap b).id w.registry) (omega arith)

shrinks-AtMostOnce :
    (t u : World)
    → u.made ≡ t.made
    → ((a : ℕ) → tally a u ≤ tally a t)
    → AtMostOnce t
    → AtMostOnce u
shrinks-AtMostOnce t u e le h a = ground (arith, e, le a, h a)

step-AtMostOnce : {t u : World} → Step t u → AtMostOnce t → AtMostOnce u
unfolding publish disconnect end_session work_on fallback_session tally
step-AtMostOnce {t} (created s e) h = subst AtMostOnce (sym e) (create-AtMostOnce s t h)
step-AtMostOnce {t} (published xs b ys g e) h =
    subst AtMostOnce (sym e)
      (shrinks-AtMostOnce t (publish b (xs ++ ys) t) refl (λ a. publish-le t xs b ys a g) h)
step-AtMostOnce {t} (disconnected id e) h =
    subst AtMostOnce (sym e) (shrinks-AtMostOnce t (disconnect id t) refl (disconnect-le t id) h)
step-AtMostOnce {t} (ended xs b ys g e) h =
    subst AtMostOnce (sym e)
      (shrinks-AtMostOnce t (end_session b (xs ++ ys) t) refl (λ a. end-le t xs b ys a g) h)
step-AtMostOnce {t} (worked b work l e) h =
    subst AtMostOnce (sym e) (shrinks-AtMostOnce t (work_on b work t) refl (λ a. omega arith) h)
step-AtMostOnce {t} (fell_back b l e) h =
    subst AtMostOnce (sym e) (shrinks-AtMostOnce t (fallback_session b t) refl (fall_back-le t b) h)

initial-AtMostOnce : (w : World) → IsInitial w → AtMostOnce w
unfolding tally count count_table
initial-AtMostOnce w (made, sessions, connecting, ending) a =
    let zero_tally : tally a w ≡ 0 = rw (tally, sessions, connecting, ending) refl in
    (omega (arith, zero_tally), λ l. zero_tally)

Reach-AtMostOnce : {s w : World} → IsInitial s → Reach s w → AtMostOnce w
Reach-AtMostOnce {s} initial here = initial-AtMostOnce s initial
Reach-AtMostOnce initial (next r step) = step-AtMostOnce step (Reach-AtMostOnce initial r)

-- In every interleaving, a session that requests can find under any identifier is neither still being
-- connected nor taken out for a shutdown.
pub found_is_live :
    {s w : World} (key : Bytes) (a : ℕ)
    → IsInitial s
    → Reach s w
    → find_session w.registry.sessions key ≡ some a
    → (has a w.connecting ≡ false) × (has a w.ending ≡ false)
unfolding tally
found_is_live {s} {w} key a initial r h =
    let once = (Reach-AtMostOnce initial r a).0 in
    let there = count_table-find a key w.registry.sessions h in
    (
      count-has a w.connecting (omega (arith, once, there)),
      count-has a w.ending (omega (arith, once, there)),
    )
