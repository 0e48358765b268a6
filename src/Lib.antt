-- ===== src/Lib.antt =====
-- TermBridge runs terminal sessions on a device (the agent) and shows them in browsers, directly or
-- through a relay (the cloud) that devices reach by a tunnel. This library models the core of the
-- agent's sessions and the protocols around them, and proves what they guarantee.
--
-- The parts, the files that model them, and the code they stand for:
--
--   Terminal           internal/agent/application/task/terminal: a live session (runtime.go,
--                      SessionRuntime) owns a PTY, a history and the clients that are attached. One
--                      client controls the terminal; the others watch.
--   Terminal.Outbound, Terminal.Client
--                      registry.go: the frames and the bounded queue of one client (enqueue,
--                      canEnqueue, MarkSent, MarkBinarySent, closeQueue, the receives of its loop).
--   Terminal.Replay    runtime.go: enqueueReplay, readReplayTail, enqueueReplayChunks.
--   Terminal.Runtime   runtime.go: newSessionRuntime, the three sections of attach under the
--                      mutexes, enqueueControlRole, removeClientOrder.
--   Terminal.Control   runtime.go: detachClient, takeControl, writeInputFrom, resizeFrom,
--                      publishBinary and broadcastText, closeSession, closeClients.
--   Terminal.Registry  registry.go: which sessions have a runtime and how one is started
--                      (claimSessionStart, startClaimedSessionRuntime, releaseSessionStart); Rerun
--                      has RerunSession.
--   Terminal.Registry.Requests, Terminal.Registry.Manage
--                      registry.go: the operations on stored sessions and workspaces over any store
--                      (UpdateSession, DeleteSession, DeleteWorkspace, UpdateSessionOrder,
--                      UpdateWorkspaceOrder, GetSession); Manage.Refresh has the listing of sessions
--                      and CloseSession without a runtime. Terminal.Registry.Store is the interface
--                      RuntimeStore, which the store in JSON files fills.
--   Terminal.Registry.Create
--                      registry.go: CreateSession, with Resolver.Resolve of
--                      internal/agent/application/task/workspace/resolver.go and Manager.Create of
--                      internal/agent/application/task/session/manager.go. Steps has what changes
--                      the store or the registry.
--   Terminal.Registry.Archive, Terminal.Registry.Views
--                      registry.go: archiveCurrentHistory; and what the lists, the tree of
--                      workspaces, Attach, CloseSession and History look up and show. Listed
--                      has what ListSessions shows.
--   Terminal.Exit      runtime.go: what waitLoop saves and tells when the process has ended.
--   History            internal/agent/infrastructure/storage/history/writer.go and config.go: the
--                      bounded history of a terminal, which a replay reads.
--   Process            internal/agent/model/task/process: sizes and the specification of a process
--                      (spec.go), its environment (env.go), the classification of its exit
--                      (exit.go).
--   Shortcut           internal/agent/model/task/shortcut/shortcut.go: the normal form of a stored
--                      shortcut; and validateShortcutCommand of registry.go.
--   Session            internal/agent/model/task/session: states and transitions (state.go), what is
--                      stored (session.go), the errors (errors.go), and Recoverer.Refresh of
--                      recovery.go for sessions whose process may be gone.
--   Store              internal/agent/repository/task/state/store.go: the store of workspaces and
--                      sessions in JSON files, with the records of
--                      internal/agent/model/task/workspace/workspace.go. Node has the nodes of
--                      sessions in a workspace, Order the orders, Disk the files of workspaces and
--                      the index, Names the paths and names of
--                      internal/agent/model/task/workspace/key.go, Sessions the operations on one
--                      session, Sessions.Lists those on lists of them.
--   File               internal/agent/model/task/file/path.go: relative paths of workspace files.
--   Git                internal/agent/model/task/git/validation.go: branch names and commit messages;
--                      and how internal/agent/infrastructure/gitexec/repository.go changes paths of a
--                      repository into those of a workspace.
--   Config             internal/shared/infrastructure/config/config.go: defaults and validation of
--                      the limits of the history, terminals, files and git. Servers has the normal
--                      form and the validation of URLs, databases and sign-in.
--   Cloud.Auth         internal/cloud/repository/user/auth/repository.go: the tables of accounts, and in
--                      Queries what is asked of them. Service and Accounts have
--                      internal/cloud/application/user/auth/service.go: registration and mailed codes,
--                      and passwords and sign-in, also with other providers.
--   Cloud.Oauth        internal/cloud/api/handler/server.go: the sign-in of other programs by codes.
--   Cloud.Devices      internal/cloud/api/handler/server.go: the connected devices and the routes to
--                      them.
--   Cloud.Quotas       internal/cloud/api/handler/quota.go with
--                      internal/cloud/repository/user/quota/repository.go: limits of attached
--                      terminals, which administrators set.
--   Cloud.Relay        internal/cloud/api/handler/route.go: how the tunnel of a device serves requests
--                      and the browsers that follow terminals and watches.
--   Protocol.Terminal  internal/shared/dto/protocol/terminal/protocol.go: the control messages
--                      between a browser and a session.
--   Protocol.Tunnel    internal/shared/dto/protocol/tunnel/frame.go: the frames between a device and
--                      the cloud.
--   Watch              internal/agent/infrastructure/workspacewatch/manager.go: the watch of one
--                      workspace, whose subscribers have bounded channels. Steps has any order of
--                      what its goroutines do, Readers what a reader gets, Manager the watches of all
--                      roots.
--   Quota              internal/shared/application/quota/counter.go: how many terminals each subject
--                      has attached.
--   Prelude            names of the libraries, Boolean tests, lists, results, signed numbers, texts.
--
-- State and operations. A Go struct is a record and a method is a function from the record to a new
-- one and its results. What runs under one hold of a mutex is one function, and interleavings are
-- sequences of such functions: Terminal.Control.Steps has them as a relation between states of a
-- session, with the parts of a detach, which releases the mutexes before its broadcast, as steps of
-- their own, and Terminal.Registry.Processes as one between states of all launches, where the end of
-- a process and the removal of its runtime are two steps. The channel of a client is the list of its
-- frames. Where a watch drains a channel, an argument says which events its reader takes meanwhile. An error is a value of a result type, a nil pointer is `none`,
-- and the order in which Go walks a map is a parameter.
--
-- Numbers. `int` and the counts of bytes are unbounded; the conversion of an exit code to 32 bits is
-- written out. Limits that are not positive are 0 where the code treats them alike.
--
-- Fuel. The loop of Write and the loop over the chunks of a replay consume a byte in each round, and
-- their fuel is the number of bytes. The loop over names of archives has 1000 rounds in the code. A
-- detach calls itself only through a broadcast to the clients
-- that are left, each of which it removes, and its fuel is one more than their number.
--
-- Disk. The state of the store is the set of workspace directories, the file of each workspace and
-- the index. A write of a file replaces it, or fails and leaves it, or fails in the fallback of
-- replaceFile and loses it.
--
-- Parameters and arguments. The JSON and protobuf codecs, the generated messages, the clock, the
-- file system and the calls of the PTY are not in these files: what they return is a parameter or an
-- argument. The operations of the registry take the store as a record of operations. A call of the
-- account service takes the answers of the database (which statement fails, whether a transaction
-- begins and commits, the new ids), the clock, hashes, signatures, random bytes and the mail service
-- as arguments; an action maps tables to tables and a result, and a transaction that fails gives the
-- old tables back. Transactions follow each other: what overlapping ones see of each other is up to
-- the database and not modelled. The codec of frames reads back what it has written of frames without
-- nil messages.
--
-- Not modelled: the store in SQL, the git program, workspace files, the HTTP handlers of the agent
-- and most of those of the cloud, the reading of the configuration, migrations, logging, the command
-- line, and the web front end. Most of these are I/O or wiring; git has logic of its own that is left
-- out for now.
mod Prelude
pub mod Cloud
pub mod Config
pub mod File
pub mod Git
pub mod History
pub mod Process
pub mod Protocol
pub mod Quota
pub mod Session
pub mod Shortcut
pub mod Store
pub mod Terminal
pub mod Watch
