-- ===== src/Lib.antt =====
-- The service manager of dynamod (rust/dynamod-svmgr/src): its supervisor tree with restart
-- strategies, its start-up in dependency order, its main event loop and its shutdown; the messages
-- between the programs (rust/dynamod-common/src); the login daemon (rust/dynamod-logind/src); and the
-- log daemon (rust/dynamod-logd/src).
--
-- Config: config/service.rs, config/supervisor.rs and config/validate.rs. Config.Service and
-- Config.Supervisor hold the structs and enumerations of the configuration files, Config.Validate
-- the checks on them, Config.Defaults the defaults, Config.Duration the reading of durations.
--
-- Supervisor: supervisor/. Supervisor.Intensity is the counter of restarts in a sliding window
-- (intensity.rs), Supervisor.Lifecycle the states of a service (lifecycle.rs), Supervisor.Tree the
-- tree of supervisors and workers with its index of process ids (tree.rs), Supervisor.Strategy the
-- decision after a child's exit (strategy.rs). A method that takes `&mut self` is a function to the
-- new value; `get_worker_mut` and `get_mut` with a write to the result are `update_worker` and
-- `update_supervisor`.
--
-- Dependency: dependency/. Dependency.Graph builds the graph of who waits for whom from the
-- definitions (graph.rs); Dependency.Frontier is the state of start-up, which yields the services
-- that can start as others become ready or fail (frontier.rs). Dependency.Frontier.Order takes the
-- calls on the frontier as a step relation: a service is marked ready or failed while it is
-- starting.
--
-- Dependency.Cycle is the search for cycles (cycle.rs); it is run on small graphs only.
--
-- Shutdown: shutdown.rs, the order in which services are stopped and the names of signals.
--
-- Manager: main.rs, cgroup/hierarchy.rs and shutdown.rs, the process of the service manager, which puts
-- the parts above together. Manager.World is its state, with the answers of the system that are
-- still to come; Manager.Workers starts and stops processes, Manager.Exits handles the
-- ends of processes and what the supervisors decide, Manager.Requests builds the tree and carries out
-- what the control socket asks for, Manager.Startup is the loop that starts the services,
-- Manager.Stopping the execution of a shutdown, Manager.Events a turn of the main event loop.
-- Manager.Order.Refinement ties the start-up loop to the steps of Dependency.Frontier.Order.
-- Manager.Preserved carries what every step keeps over everything that the end of a process sets off.
--
-- Process: process/readiness.rs, when a service is ready, and process/monitor.rs, the tables of running
-- processes. Cgroup: cgroup/monitor.rs, kills and memory
-- pressure. What sockets, pipes and kernel files answer is an argument.
--
-- Protocol: protocol.rs of dynamod-common. Protocol.Message is the data, Protocol.Framing the frame
-- around a serialized message. The serializer, rmp_serde, is a parameter, and the theorems that need
-- it assume that it reads back what it writes. Bytes are numbers.
--
-- InitChannel: ipc/init_channel.rs, the channel to the init program, over what reads return.
--
-- Control: ipc/control.rs. Control itself is the answer to a request and the action that it leads
-- to, as a function of the tree; Control.Connection reads a request from a connection, answers it, and
-- polls connections. How the tree is written out as text is an argument.
--
-- Login: dynamod-logind. Login.Data is the data, Login.State the operations on sessions,
-- seats and users (state.rs); Login.State.Consistent says how these are tied together. Login.Daemon
-- (manager.rs) has the methods that begin, activate and end sessions, with what they ask of the
-- system, as a list of actions, and the tasks that clean up after a user; Login.Session (session.rs)
-- has the methods of a session's own object. A call runs without another in between; a clean-up task
-- takes its three steps one by one, as the code gives up the lock between them. An action is a request:
-- whether it succeeds is not known.
-- The identifier that the global counter yields and the readings of the clocks are arguments.
-- Login.Power (power.rs) is the handshake of suspending and shutting down, with the wait for delay
-- inhibitors, Login.Power.Keys (acpi.rs) what keys and the lid set off,
-- and Login.Paths (manager.rs) the object paths of sessions and seats.
--
-- Log: dynamod-logd. Log.Storage is the log file with its rotation and the entries in memory
-- (storage.rs), Log.Collector what is read from the standard input and from datagrams (collector.rs).
--
-- Common: the hash maps and hash sets, as association lists and lists, with their laws. The order in
-- which a hash map or set is iterated is the order of the list; no theorem depends on a particular
-- one.
--
-- Bounds: an `Instant` and a `Duration` are numbers of nanoseconds without a bound. The worklist of
-- `mark_failed` runs on fuel, the length of the list and the number of dependents of all services that
-- are not blocked; the theorem about `mark_failed` below says that this is always enough. The loop that
-- finds the stop order has such fuel as well. The search for cycles is given a depth of one more than
-- the number of services. The loop that reaps processes has a turn more than there are answers
-- of `waitpid` to come: these are a list that ends, so the ends of children that are still to be reaped
-- are finitely many, which the code does not make sure of, since children that it restarts while it
-- reaps may end as well. A wait for a process has a turn more than there are nanoseconds to its
-- deadline, which is enough if the clock is later at each moment than at the one before; the theorems
-- that need this say so.
--
-- Not modelled: a run of the service manager that reaps forever, fed by its own restarts, and whether
-- a process dies of SIGKILL; the system calls themselves (fork and exec, signals, sockets, cgroups,
-- mounts), reading TOML and the directories of definitions, the registration of objects on the bus,
-- their properties and signals, device files and the switch of terminals in the login daemon, and the
-- other programs of the repository (the host name daemon, the systemd bridge, the command line tool,
-- the PAM module and the init program).
pub mod Common
pub mod Config
pub mod Supervisor
pub mod Dependency
pub mod Protocol
pub mod Login
pub mod Shutdown
pub mod Control
pub mod Cgroup
pub mod Process
pub mod Manager
pub mod InitChannel
pub mod Log
