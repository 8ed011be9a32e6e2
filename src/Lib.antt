-- ===== src/Lib.antt =====
-- The backend of the NintyShell plugin (Go, folder backend), a sidecar that the DBX host starts. The
-- host sends requests as JSON objects; `plugin` keeps one session for each connection and answers
-- them, and goroutines forward the output of commands and terminals as events.
--
-- Parts and files. Base holds the shared names, Text the functions of Go's `strings` package and
-- `strconv.Atoi` on byte strings.
--   Stream: `streamWriter` (backend/main.go) and `limitedBuffer` (backend/dockerapi.go). Forward and
--     Limited say what they forward and keep.
--   Meta: how a command reports its exit code and directory: `parseMetaLine`, `parseMetaFileValue`
--     and `parseRingMeta` (backend/main.go), `buildRemoteScript` and `shellQuote` (backend/ssh.go).
--   Request: the JSON parameters and the functions that read settings from them (end of
--     backend/main.go, `stringField` of backend/sftpapi.go).
--   Session: `shellSession` (backend/main.go). Each lock section of a handler is a function from a
--     session to the new session and its effects; Session.Exec has the interleavings of all of them as
--     a step relation.
--   Osc7: `osc7Scanner` and `osc7URIToPath` (backend/localpty.go): Scan has the scanner's bounds, Begin and
--     Found a report in a stream that is cut anywhere, Path the directory of a report. The scanner's loop
--     runs on the length of what is pending as fuel, which is enough as each round shortens it.
--   Files: the file panel (backend/sftpapi.go) and the filesystem provider (backend/fsprovider.go), with
--     the path and client functions of backend/ssh.go. A handler is a dialog with an SFTP server that may
--     answer anything. Panel and Provider have the requests, Remove the removal of a tree, Page the
--     cutting of pages, Uploads, Registry and Delivery the uploads, Download the download; Order, Guard,
--     Requests and Closing are about the requests. The fuel of a removal is the depth of directories; a
--     client that follows cursors runs on one round more than there are entries, since each page but the
--     last has one.
--   Root: root escalation (backend/root.go), its settings, the reading of a root command's output and, in
--     Marker, the search for a marker in a stream. Wait is the waiting for one, with Run
--     (`runRootCommand`) and Sftp (`openRootSFTPClient`) as dialogs over a Channel.
--   Plugin: the map of the sessions (`plugin` of backend/main.go) and how a request finds its session.
--     Plugin.Registry has connecting, disconnecting and the fallback as a step relation on the maps and a
--     heap of sessions, where an address stands for a session object; Place, Kept and Once are
--     about what becomes of a session. Plugin.Requests has the requests on the state of one session.
--   Docker: the Docker panel (backend/dockerapi.go). Panel and Requests have the handlers as dialogs with
--     a host that may answer anything, Tables, Ports, Inspect and Details the parsers, with encoding/json
--     as the parameter `Decoder`, Run the running of one command and Run.Whole its result. Ids and Safety
--     describe the identifiers and commands, Answers, Overview and Commands are about the handlers,
--     Messages and Order about what is shown. Lower case is that of ASCII, other bytes are kept.
--   Completion: `complete` and its sources (backend/main.go, backend/ssh.go). Collect has the two loops that
--     stop at a limit, Sources this machine and the remote host, whose files and path functions are
--     parameters, Load what a host is asked for once; Bounds and Continue are about the candidates.
--   Local: this machine as the parameter `Machine`, the shell and directory of a local connection, and in
--     Local.Connect `connect` with the connection test (backend/main.go).
--   Ssh: the connection test and the connecting over SSH (backend/ssh.go), as dialogs with the
--     network; Shell has `openPTYShell` as a dialog with the host, Outcome the connect against the test.
--   Channel: what the code asks of one channel of golang.org/x/crypto/ssh, in order, as a dialog with a host
--     that may answer anything; Stages is a condition on the order of the steps. Ssh.Shell, Command.Remote
--     and Root use it.
--   Terminal: input, resizing, the read loops, the injection of the directory reports and the keepalive loop
--     (backend/ssh.go, backend/localpty.go); Reading has the read loops with
--     the reports in them, Input, Resize and Keepalive the
--     rest, Local the start of a local terminal (backend/localpty_unix.go).
--   Dispatch: the table of requests, `handle` (backend/main.go).
--   Command: `execCommand` with the two ways to start a command, Remote (`startSSHExec`) and Local
--     (`startLocalExec`, `startCommand`; backend/main.go, backend/proc_unix.go), and in Report what is
--     reported of a command, through the parsers of Meta and the last lock section of Session.
--   Package: the packaging tool (tools/package-cross/main.go): the rewriting of the manifest, the staging and
--     the entries of a package. The fuel of the walk to the root is more than the depth of the directory.
-- Conventions. A text is the list of its bytes. A function that returns a value and an error returns
-- an `Option` or a sum. A mutated struct is a record that is returned anew. Loops are recursions on
-- the data that they walk, or on fuel where a theorem says how much is enough.
--
-- Outside the model: the SDK in backend/third-party, golang.org/x/crypto/ssh and github.com/pkg/sftp,
-- the operating system, goroutine scheduling (taken as arbitrary interleaving of lock sections), time
-- (a timer is a step that may come or not), the Windows pseudo console and its probes, the user
-- interface, and the connection tester in backend/cmd, which calls those libraries in most of its lines.
pub mod Base
pub mod Text
pub mod Stream
pub mod Meta
pub mod Request
pub mod Channel
pub mod Session
pub mod Osc7
pub mod Plugin
pub mod Terminal
pub mod Files
pub mod Root
pub mod Docker
pub mod Local
pub mod Command
pub mod Dispatch
pub mod Completion
pub mod Ssh
pub mod Package
