-- ===== src/Root/Sftp/Order.antt =====
-- The order in which the root SFTP server is opened.
use dbx_plugin_ninty_shell.Base.{List, ◌++◌, ◌≡◌, inl, inr}
use dbx_plugin_ninty_shell.Text.{Bytes, codes}
use dbx_plugin_ninty_shell.Session.{Session, Effect}
use dbx_plugin_ninty_shell.Channel.{Channel}
use dbx_plugin_ninty_shell.Channel.Stages.{Stage, idle, closed, listening, trusted, Careful}
use dbx_plugin_ninty_shell.Root.Wait.{Behind}
use dbx_plugin_ninty_shell.Root.Sftp.{Opening}

-- A refusal leaves no channel open, a client has the open one.
abbrev pub IsSettled : Stage → Opening → Type 0
IsSettled idle (s, done, inl e) = Unit
IsSettled (closed g) (s, done, inl e) = Unit
IsSettled (listening g heard) (s, done, inl e) = ⊥
IsSettled (trusted g heard) (s, done, inl e) = ⊥
IsSettled idle (s, done, inr (client, h)) = ⊥
IsSettled (closed g) (s, done, inr (client, h)) = ⊥
IsSettled (listening g heard) (s, done, inr (client, h)) = ⊥
IsSettled (trusted g heard) (s, done, inr (client, h)) = h ≡ g

-- The password, behind the marker of the outer shell.
abbrev pub SendsPassword : Bytes → Bytes → Bytes → Bytes → Type 0
SendsPassword auth password heard bytes =
    (rest : Bytes) × Behind auth heard rest × (bytes ≡ password ++ codes "\n")

-- The protocol begins with the byte behind the server's marker, which stands behind the other one.
abbrev pub StartsProtocol : Bytes → Bytes → Bytes → Bytes → Type 0
StartsProtocol auth server heard read =
    (rest : Bytes) × Behind auth heard rest × Behind server rest read

module _ (s : Session) (done : List Effect) (auth server : Bytes) where
  abbrev Safe : Stage → Channel Opening → Type 0
  Safe = Careful IsSettled (SendsPassword auth s.root_password) (StartsProtocol auth server)
