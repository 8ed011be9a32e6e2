-- ===== src/Plugin/Registry/Kept.antt =====
-- The places of the sessions along the steps of the plugin.
use mathlib.Core.Path.{subst}
use dbx_plugin_ninty_shell.Base.{
  ℕ, ◌<◌, Bool, true, false, List, ◌∷◌, ◌++◌, ◌≡◌, inl, inr, refl, sym, arith, ◌==◌, Bool-cases,
}
use dbx_plugin_ninty_shell.Text.{Bytes}
use dbx_plugin_ninty_shell.Session.{Session, shutdown, fall_back}
use dbx_plugin_ninty_shell.Session.Shutdown.{shutdown_stops}
use dbx_plugin_ninty_shell.Plugin.{find_session}
use dbx_plugin_ninty_shell.Plugin.Table.{
  set_session, delete_session, find-delete_other, find-set_session, find-set_other,
}
use dbx_plugin_ninty_shell.Plugin.Registry.{
  Registry, World, Work, do_work, put, due, create, publish, disconnect, end_session, work_on,
  fallback_session, noted, connect_publish, disconnect_take, remember_fallback, Step, Reach,
  created, published, disconnected, ended, worked, fell_back, here, next, IsInitial,
}
use dbx_plugin_ninty_shell.Plugin.Registry.Place.{
  HasPlace, in_connect, registered, stopped, IsLater, work-IsLater, fall_back-IsLater,
  later-HasPlace, weaken, put-IsLater, put_stops, rewrite-HasPlace, publish_one-HasPlace,
  end_one-HasPlace,
}

-- Every session that was made has a place.
abbrev pub IsPlaced : World → ℕ → Type 0
IsPlaced w a =
    HasPlace w.registry.sessions w.connecting w.ending (w.heap a).id (w.heap a).stopping a

abbrev pub AllPlaced : World → Type 0
AllPlaced w = (a : ℕ) → a < w.made → IsPlaced w a

create-HasPlace : (s : Session) (w : World) → AllPlaced w → AllPlaced (create s w)
unfolding create put
create-HasPlace s w all a h = elim (Bool-cases (a == w.made)) [
  | inl e ↦ let same : w.made == a ≡ true = ground (arith, e) in in_connect (rw same refl)
  | inr e ↦ rw (put, e) (weaken w.made (all a (ground (arith, h, e))))
]

publish-AllPlaced :
    (w : World) (xs : List ℕ) (b : ℕ) (ys : List ℕ)
    → w.connecting ≡ xs ++ b ∷ ys
    → AllPlaced w
    → AllPlaced (publish b (xs ++ ys) w)
unfolding publish connect_publish
publish-AllPlaced w xs b ys e all a h =
    let id = (w.heap b).id in
    let moved =
      rewrite-HasPlace w.registry.sessions (set_session id b w.registry.sessions) (xs ++ b ∷ ys)
        w.ending id (w.heap a).id (w.heap a).stopping a
        (λ other f. find-set_other other id b w.registry.sessions f)
        (subst (λ c. HasPlace w.registry.sessions c w.ending (w.heap a).id (w.heap a).stopping a) e
          (all a h)) in
    publish_one-HasPlace _ xs ys _ b (w.heap a).id (w.heap a).stopping a
      (λ same.
        subst
          (λ c.
            HasPlace (set_session id b w.registry.sessions) (xs ++ ys)
              (due (find_session w.registry.sessions id) w.ending) (w.heap c).id (w.heap c).stopping
              c)
          same (registered (find-set_session id b w.registry.sessions)))
      moved

disconnect-AllPlaced : (w : World) (id : Bytes) → AllPlaced w → AllPlaced (disconnect id w)
unfolding disconnect disconnect_take
disconnect-AllPlaced w id all a h =
    rewrite-HasPlace w.registry.sessions (delete_session id w.registry.sessions) w.connecting
      w.ending id (w.heap a).id (w.heap a).stopping a
      (λ other f. find-delete_other other id w.registry.sessions f) (all a h)

shutdown-IsLater : (s : Session) → IsLater s (shutdown s).0
shutdown-IsLater s = ((shutdown_stops s).0, λ h. (shutdown_stops s).1)

end-AllPlaced :
    (w : World) (xs : List ℕ) (b : ℕ) (ys : List ℕ)
    → w.ending ≡ xs ++ b ∷ ys
    → AllPlaced w
    → AllPlaced (end_session b (xs ++ ys) w)
unfolding end_session
end-AllPlaced w xs b ys e all a h =
    let heap = put b (shutdown (w.heap b)).0 w.heap in
    let moved =
      later-HasPlace (w.heap a) (heap a) (put-IsLater b a _ w.heap (shutdown-IsLater (w.heap b))) (
        subst (λ l. HasPlace w.registry.sessions w.connecting l (w.heap a).id (w.heap a).stopping a)
          e (all a h)) in
    end_one-HasPlace _ _ xs ys b (heap a).id (heap a).stopping a
      (λ same. stopped (subst (λ c. (heap c).stopping ≡ true) same (put_stops b w.heap))) moved

work-AllPlaced : (w : World) (b : ℕ) (work : Work) → AllPlaced w → AllPlaced (work_on b work w)
unfolding work_on
work-AllPlaced w b work all a h =
    later-HasPlace (w.heap a) (put b (do_work work (w.heap b)) w.heap a)
      (put-IsLater b a _ w.heap (work-IsLater work (w.heap b))) (all a h)

pub noted-sessions : (b : Bool) (id : Bytes) (r : Registry) → (noted b id r).sessions ≡ r.sessions
unfolding noted remember_fallback
noted-sessions false id r = refl
noted-sessions true id r = refl

fall_back-AllPlaced : (w : World) (b : ℕ) → AllPlaced w → AllPlaced (fallback_session b w)
unfolding fallback_session
fall_back-AllPlaced w b all a h =
    let s = put b (fall_back (w.heap b)).0 w.heap a in
    subst (λ sessions. HasPlace sessions w.connecting w.ending s.id s.stopping a)
      (sym (noted-sessions (fall_back (w.heap b)).2 (w.heap b).id w.registry))
      (later-HasPlace (w.heap a) s (put-IsLater b a _ w.heap (fall_back-IsLater (w.heap b)))
        (all a h))

step-AllPlaced : {t u : World} → Step t u → AllPlaced t → AllPlaced u
step-AllPlaced {t} (created s e) all = subst AllPlaced (sym e) (create-HasPlace s t all)
step-AllPlaced {t} (published xs b ys h e) all =
    subst AllPlaced (sym e) (publish-AllPlaced t xs b ys h all)
step-AllPlaced {t} (disconnected id e) all = subst AllPlaced (sym e) (disconnect-AllPlaced t id all)
step-AllPlaced {t} (ended xs b ys h e) all = subst AllPlaced (sym e) (end-AllPlaced t xs b ys h all)
step-AllPlaced {t} (worked b work l e) all = subst AllPlaced (sym e) (work-AllPlaced t b work all)
step-AllPlaced {t} (fell_back b l e) all = subst AllPlaced (sym e) (fall_back-AllPlaced t b all)

initial-AllPlaced : (w : World) → IsInitial w → AllPlaced w
initial-AllPlaced w (made, sessions, connecting, ending) a l = absurd (ground (arith, made, l))

-- In every interleaving of connects, disconnects, shutdowns and work on the sessions, each session that was
-- ever made is being connected, registered under its own identifier, taken out for a shutdown that is
-- to come, or stopped.
pub none_lost : {s w : World} → IsInitial s → Reach s w → AllPlaced w
none_lost {s} initial here = initial-AllPlaced s initial
none_lost initial (next r step) = step-AllPlaced step (none_lost initial r)
