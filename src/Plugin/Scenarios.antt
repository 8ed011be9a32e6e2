-- ===== src/Plugin/Scenarios.antt =====
-- Two connections under one identifier: the second takes the place of the first.
use dbx_plugin_ninty_shell.Base.{false, true, some, [], ◌≡◌, refl}
use dbx_plugin_ninty_shell.Text.{codes}
use dbx_plugin_ninty_shell.Text.Equal.{bytes_eq}
use dbx_plugin_ninty_shell.Session.{Session}
use dbx_plugin_ninty_shell.Plugin.{find_session}
use dbx_plugin_ninty_shell.Plugin.Registry.{
  World, local_session, create, publish, Reach, created, published, here, next,
}
use dbx_plugin_ninty_shell.Plugin.Registry.Kept
use dbx_plugin_ninty_shell.Plugin.Registry.Place.{has}
use dbx_plugin_ninty_shell.Plugin.Registry.Kept.{AllPlaced}
use dbx_plugin_ninty_shell.Plugin.Registry.Once

abbrev session : Session
session = local_session (codes "c1") (codes "/bin/sh") (codes "/")

abbrev start : World
start = record {
  registry = record { sessions = []; fallbacks = [] };
  heap = λ a. session;
  made = 0;
  connecting = [];
  ending = [];
}

abbrev first : World
first = publish 0 [] (create session start)

abbrev second : World
second = publish 1 [] (create session first)

to_first : Reach start first
unfolding create publish
to_first = next (next here (created session refl)) (published [] 0 [] refl refl)

to_second : Reach start second
unfolding create publish
to_second = next (next to_first (created session refl)) (published [] 1 [] refl refl)

none_lost_example : AllPlaced second
none_lost_example = Kept.none_lost (refl, refl, refl, refl) to_second

second_found : find_session second.registry.sessions (codes "c1") ≡ some 1
unfolding publish create find_session bytes_eq local_session
second_found = refl

first_due : has 0 second.ending ≡ true
unfolding publish create find_session bytes_eq local_session
first_due = refl

found_is_live_example : (has 1 second.connecting ≡ false) × (has 1 second.ending ≡ false)
found_is_live_example =
    Once.found_is_live (codes "c1") 1 (refl, refl, refl, refl) to_second second_found
