-- ===== src/Root/Run/Releases.antt =====
-- The channel of a root command.
use dbx_plugin_ninty_shell.Base.{[], ◌++◌, ◌≡◌}
use dbx_plugin_ninty_shell.Text.{Bytes, codes}
use dbx_plugin_ninty_shell.Session.{Session}
use dbx_plugin_ninty_shell.Docker.Run.{Ran}
use dbx_plugin_ninty_shell.Channel.{Channel}
use dbx_plugin_ninty_shell.Channel.Stages.{Stage, idle, closed, listening, trusted, Careful}

-- No channel is open.
abbrev pub HasClosed : Stage → Ran → Type 0
HasClosed idle ran = Unit
HasClosed (closed g) ran = Unit
HasClosed (listening g heard) ran = ⊥
HasClosed (trusted g heard) ran = ⊥

-- The password, and nothing else, to a program of which nothing was read yet.
abbrev pub QueuesPassword : Bytes → Bytes → Bytes → Type 0
QueuesPassword password heard bytes = (heard ≡ []) × (bytes ≡ password ++ codes "\n")

abbrev pub Never : Bytes → Bytes → Type 0
Never heard read = ⊥

module _ (s : Session) (ready done : Bytes) where
  abbrev Safe : Stage → Channel Ran → Type 0
  Safe = Careful HasClosed (QueuesPassword s.root_password) Never
