-- ===== src/Lib.antt =====
-- dck is a container runtime for Linux in Go: internal/container holds a container's state in memory
-- and in one JSON file each, starts its processes and follows their exit; cmd/supervisor.go brings
-- detached containers back; internal/state says where files are; internal/image and internal/builder
-- make images; internal/network connects containers, internal/orchestrator places the replicas of
-- services on the nodes of a cluster, and cmd/up.go starts the services of a compose file.
--
-- What is modelled, and where:
-- - Base: shared types and lemmas. A Go string is a list of byte values (`Bytes`), an int is an
--   integer (`ℤ`), an int64 product wraps around (`Base.Int64`), a JSON map is an association list.
-- - FilePath: `filepath.Clean`, `Join`, `Base`, `Dir` and `Rel` of the standard library, on Unix. `FilePath.Clean`
--   has the laws of clean absolute paths.
-- - State: internal/state/state.go. Every path of the data directory, and the checks on names that
--   come from outside. The hash is a parameter, of which a digest that is not empty is asked. Writing
--   files is not modelled here: its effect on a container's file is `Container.Types.save`.
-- - Container: internal/container.
--   `Container.Types`: the fields of the record `Container` that the operations use, and `Save`. A
--   `Process` is one container in one process: the state in memory, the state file, and the
--   process-wide mark that `Stop` sets. How a file operation ends is an argument of the operation,
--   so a theorem holds for every outcome. A process id is a natural number, and a time is a number
--   of nanoseconds since Go's zero time. Each operation runs whole, as under its locks.
--   `Container.Load`: `Load` and `normalizeLoadedState`.
--   `Container.RestartGuard`: the crash-loop budget of restart_guard.go; `RestartGuard.Budget` has
--   sequences of attempts and reloads.
--   `Container.Lifecycle`: the exit of the main process (`finalizeStopped`, `monitorContainer`,
--   `HandleMainProcessExit`, `canRestartAfterDelay`) and `Stop`. Signals, cgroups, mounts, network
--   rules and events are outside the state.
--   `Container.Memory`: the sizes of parse.go. `Container.Ports`: port_mgr.go.
--   `Container.HostPath`: hostpath.go; `HostPath.Parts` and `HostPath.Protected` compare paths by
--   their parts.
--   `Container.Dns`: dns.go; `Dns.Registry` compares the registry's file with a map from names to
--   addresses, `Dns.Hosts` is about the hosts file that a container gets.
-- - Network: internal/network/user_network.go. An IPv4 address is its 32-bit value and a subnet a
--   network address and a prefix length; the store maps names to networks. `Network.Overlap` is about
--   `cidrOverlaps`, `Network.Subnets` about accepted subnets, `Network.Invariant` about the stores that
--   the program can reach, `Network.Addresses`, `Network.Handout` and `Network.Held` about the addresses handed out.
--   How each read and save ends is an argument.
--   `Network.Pool`: the pool of the built-in bridge in internal/network/network.go.
-- - Image: internal/image/auth.go in `Image.Auth`; `Auth.Lookup` says which credentials are found.
--   `Image.Allowlist`: internal/image/allowlist.go, the registries that may be pulled from;
--   `Allowlist.Texts` and `Allowlist.Allowed` are about starts and additions, `Allowlist.Removed`
--   about removals.
--   `Image.Archive`: safeArchivePath and validateArchiveLink of internal/image/export.go;
--   `Archive.Relative` and `Archive.Inside` say where the entries of an archive are unpacked, and
--   `Archive.Link` where its links point.
-- - Supervisor: cmd/supervisor.go, the body of the loop of `adoptEligibleContainers` for one listed
--   container. The result says whether `Start` is called, and what it does is not modelled.
-- - Compose: cmd/up.go, `sortByDependencies` and `collectDeps`. A map of the source is a list in the
--   order in which it is run through, and every list is allowed; only the names that a cycle keeps
--   back are appended in the order of their selection. `Compose.Collect` and
--   `Compose.Selection` are about the services that are started, `Compose.Edges`, `Compose.Loop` and
--   `Compose.Ends` about the main loop, `Compose.Parts` and `Compose.Order` about its result.
-- - Orchestrator: internal/orchestrator, types.go, service.go, scheduler.go and loadClusterConfig,
--   ListNodes and GetNode of cluster.go. A `Store` is the process-wide configuration with its table of
--   services, and the files services.json and cluster.json; a `Fleet` is the state files of one
--   service's replicas and the containers that run for it. How a start, a removal and a save end, and
--   when the caller gives up, are arguments, so a theorem holds for every course of an update. A JSON
--   file stands for what decoding it gives: an empty `Env` or `Volumes` of a service comes back as nil.
--   A service's ports, memory, CPUs, labels and healthcheck are left out.
--   `Orchestrator.Services` has the operations on services, `Services.Table`, `Services.Decoded` and
--   `Services.Stored` the table that they implement; `Orchestrator.Scheduler` the node for a replica (`Scheduler.Target`);
--   `Orchestrator.Rolling` the rolling update, its two nested loops as one over the replicas
--   (`Rolling.Capacity`, `Rolling.Outcome`, `Rolling.Gone`, `Rolling.Files`, `Rolling.Kept`); `Orchestrator.Reconcile` reconciliation
--   and healing (`Reconcile.Converge`, `Reconcile.Missed`).
-- - Builder: internal/builder/parser.go. `Builder.Words` splits words, `Builder.Json` reads the exec
--   form, `Builder.Instructions` reads lines. The loops over the bytes of a text are structural, with
--   the loop's variables in the records `Lexer` and `Scanner`. `Builder.Args` has the build arguments of
--   internal/builder/builder.go and `Builder.Config` what its handlers do to the image's configuration;
--   stages, commands, files and layers are not modelled.
--
-- A loop follows the text or the list it reads, and a loop over hosts or candidate subnets runs the
-- rounds that its bounds in the source give. Two run on fuel: the main loop of `sortByDependencies`,
-- with a round for each selected service and one more, since each round takes a new service, and the
-- calls of `collectDeps`, which nest no deeper than there are dependencies in the file, since each adds
-- one to the set. `Compose.Ends` and `Compose.Collect` show that this is enough.
-- `time.ParseDuration` and `fmt.Sscanf` of an integer are parameters. Not modelled: system calls, HTTP, archives, the vendored
-- libraries, and the command line.
pub mod Base
pub mod FilePath
pub mod State
pub mod Builder
pub mod Network
pub mod Image
pub mod Container
pub mod Supervisor
pub mod Compose
pub mod Orchestrator
