-- ===== src/Lib.antt =====
-- contextq-server: a server that gives named namespaces of contextq to clients with access keys, and
-- the client that administers it over ssh.
--
-- The parts of the program, and the modules that model them:
--   * internal/namespace/store.go is Namespace. Namespace.Store has IssueKey, RevokeKey and
--     Authenticate as actions on a world of files (issue_key, revoke_key, authenticate), each with
--     its lock (Os.with_lock), its reading and its atomic writing (Namespace.Atomic). What they do
--     with the keys that they have read is in Namespace.Keys, the form of tokens in
--     Namespace.Tokens, labels in Namespace.Labels, directories in Namespace.Dirs. Namespace.Init has
--     Init and Exists, Namespace.Listing ListKeys, Namespace.Roster NewStore and List. Namespace.Spec
--     is what the keys of a namespace are for the callers of the store.
--   * internal/api/server.go is Api.Execute (the handler execute), Api.Args (validateArgs),
--     Api.Bearer (bearerToken) and Api.Routes (the patterns of NewServer's mux). The handler is split
--     where the code returns early: admit is all that comes before the wait for a slot, serve and
--     respond are what comes behind it. Api.Slots is the semaphore, which concurrent requests share,
--     as steps of a pool. A handler that returns without writing is answered by net/http, with 200 and
--     no body.
--   * internal/api/runner.go is Api.Runner: run is CommandRunner.Run, write is boundedBuffer.Write.
--   * internal/target/config.go is Target: validate is Target.Validate, validate_config is
--     Config.Validate, set and resolve are the methods of those names; Target.Config also has what
--     `target use` and `target remove` of internal/app/remote.go do to a configuration. Target.File
--     has the file: default_path, load and save are DefaultPath, Load and Save, load_targets and
--     resolve_target the functions of internal/app/remote.go that call them.
--   * internal/setup/bootstrap.go is Setup: bootstrap_script is BootstrapScript, Setup.Script the text
--     that it writes, line by line. Setup.Reader is how a shell reads such a text.
--   * internal/remote/command.go and session.go are Remote.Shell (ShellQuote, ShellCommand) and
--     Remote.Ssh (the argument lists, RunSSH, Upload, Session.Close). Remote.Ssh also has
--     runRemoteAdmin, and Remote.Binary detectRemoteArch, linuxBinaryArch, firstMatchingBinary and
--     keyID, of internal/app/remote.go. Remote.Ssh.Digits reads a port number back.
--   * The commands of internal/app/remote.go, behind their flags, are App: App.Deploy is
--     runRemoteInit (remote_init) with randomStageDir and NewSession, App.Binaries
--     resolveBootstrapBinaries, App.Keys the four commands of runRemote with remoteNamespaceInit,
--     remoteKeyAdd and defaultKeyLabel, App.Exec runClientExec (client_exec), App.Doctor
--     runDoctor, App.Targets the four commands of runTarget. Such a command is an action on the world
--     and the list of the programs run so far; App.finally is `defer`. What it prints is its result.
--   * internal/app/app.go is App.Local: runNamespace, runKey, parseFlags, dataRootDefault and the exit
--     codes of Run. internal/buildinfo/buildinfo.go is Build.
--
-- How they interact: the handler authenticates with the store, whose directory for a namespace it
-- gives to the runner. The client's tokens are the store's, issued by the server on the remote host
-- and saved in the target; client_exec sends one in a request whose method and URL lead to the
-- handler. The remote
-- commands are built from a validated target, and remote-init runs the script of the installer.
--
-- The world of Os has the files, a list that says which system calls to come will fail, the random
-- bytes and the temporary names to come, and the time. An action returns a result or an error, and
-- the world that it leaves, so that a statement about every world is one about every failure. A text
-- is its list of code points; bytes and characters are numbers. A path is its directory and its last
-- element. Another process is not a step of an action: what happens under a lock is not interleaved.
--
-- Taken from outside, as parameters: JSON encoding and decoding (a Codec, whose law is that what
-- was encoded is decoded; of a map, the targets of a configuration, without their order), SHA-256
-- (32 bytes), the case folding of a character, url.Parse, the functions of net and strconv that
-- Setup.Net lists, the environment and the working directory, the contextq process, the programs
-- that an Executor runs, and what App.Surroundings and App.Exec.Http list: local binaries,
-- os.Executable, exec.LookPath, os.Hostname, the directory of os.MkdirTemp, and the HTTP request.
-- os.ReadDir and the flag package are parameters of Namespace.Roster and App.Local. Tests.Json has
-- a codec and a digest that keep the laws, Tests.Config a codec of the targets, and Tests the runs
-- of the theorems.
--
-- Loops are recursion on their lists. The only fuel is that of the decimal digits in Remote.Ssh.itoa,
-- which is the number itself and one, and so more than its digits.
--
-- Not modelled: the definitions of the flags and the text of what is printed, `serve` (runServe of
-- internal/app/app.go, which starts the HTTP server and waits for signals), ServeHTTP and the health
-- answer, the log lines, the HTTP library, and how OSExecutor starts a program.
pub mod Prelude
pub mod Strings
pub mod Names
pub mod Paths
pub mod Errors
pub mod Os
pub mod Encoding
pub mod Namespace
pub mod Remote
pub mod Api
pub mod Setup
pub mod App
pub mod Build
pub mod Target
pub mod Tests
