-- ===== src/Lib.antt =====
-- kcd, a KDE Connect daemon: its pairing, the connections to its devices and how they come about, its
-- event bus, its questions to the user and the output of the commands that a phone runs.
--
-- The daemon keeps a registry of remote devices. A device has a pairing state, at most one TLS
-- connection, a channel of packets to send, and the bookkeeping of discovery and reconnects. The
-- pairing plugin moves the state of a device on packets, on calls of the user and on timers; the
-- state decides which packets pass. Changes are published on the bus, from which clients read.
--
--   Base      names and lemmas that the modules share: lists, maps as lists of pairs, integers
--   Events    internal/events/bus.go: the bus, with Subscribe, Close, Publish and EventsSince
--   Protocol  internal/protocol/packet.go, pair.go: packets and the pair body, with
--     Framing    packet.go: reading lines and packets off a connection
--     Names      identity.go: device ids, and the sanitising of device names
--   Device    internal/device: the struct and its state (device_core.go, state.go), with
--     Session    device_session.go: Connect, Disconnect and the death of a connection
--     Io         io.go: Send, the writer and the reader
--     Discovery  device_discovery.go: sightings, dials, cooldown
--     Telemetry  device_telemetry.go: battery, capabilities, addresses
--     Registry   registry.go: the map of devices, pruning and the reconnect backoff, with
--       Saved    registry_persistence.go, state.go: the state file
--   Cert      internal/cert/cert.go: the pairing code and the check of a peer's name
--   Plugins   internal/plugin/registry.go: which plugin handles a packet
--   Net       internal/netutil/backoff.go: the delay after network errors
--   Daemon    internal/daemon: what the transport decides, with
--     Handshake  transport_handshake.go: from a TLS handshake to the session of a device
--     Sightings  transport.go: announcements (onDeviceFound) and which inbound peers are let in
--     Dial       transport_dial.go: a dial, from the target to the new connection
--     Reconnect  transport_reconnect.go: the loop that dials a lost device again
--   Files     internal/fsutil/fsutil.go: the names of files that a peer sends
--   Ipc       internal/ipc: the server for local clients, with
--     Prompts    prompts.go: questions to the user and their answers
--     Watch      server_watch.go: the events that a client is sent
--   RunCommand  internal/plugins/runcommand/output.go: the output of a remote command, with
--     Executions  runcommand.go, exec.go: which commands a phone runs, and stops
--   Clipboard  internal/plugins/clipboard: the exchange of texts with a phone
--   Contacts  internal/plugins/contacts/sync.go: the index of the phone's contacts
--   Mpris     internal/plugins/mpris/reconcile.go: the players that come and go, position drift
--   Sftp      internal/plugins/sftp, with
--     Table      mounttable.go: the mounts that the kernel lists
--     Args       mount.go: the command line of sshfs
--     Release    unmount.go, request.go: finding and releasing a mount
--   Pair      internal/plugins/pair: state, timers and events (types.go, lifecycle.go), and
--     Actions    handle.go, actions.go: packets, calls of the user, the timer that fires
--
-- A function keeps the name of its Go function, in snake case. A method is a function on a record;
-- where it changes shared state it returns the new record with its results, and what it does
-- outside (events, callbacks, closed connections) as a list. A goroutine is a sequence of calls:
-- what holds a lock from its first to its last statement is one step, and what frees the lock is
-- several (Session, `accept_after` and `expire_pending` of Pair). The pairing plugin works on
-- pointers, so the registry has a heap of devices.
--
-- Numbers are natural numbers. The bus, and the pairing plugin for its timers, count in uint64 and
-- wrap at 2 ^ 64, which their theorems keep in sight; the doubling of the backoff cannot overflow,
-- since it is tested before. Timestamps of pairing are integers. Times are nanoseconds, given to each
-- call. Loops are over lists or over the number of rounds that is left, so none needs fuel.
--
-- A handshake, an announcement and the decision to dial are one step each, although other goroutines
-- may run between their calls; the reconnect loop reads its device anew at each point. The sockets,
-- pipes, tickers and contexts are inputs: what was read, what a `select` took.
--
-- Parameters: SHA-256, the decoding of JSON and of UTF-8, the last element of a path, the text of
-- addresses, the payloads and hooks of the bus, the policy of the plugin registry, and what sockets and
-- files give and answer, an error included. A pair body is what its JSON text decodes
-- to. Not modelled: sockets and TLS, logging, the packet pool but for
-- when a packet goes back to it, the other plugins and D-Bus, the rest of the IPC server and the
-- command line.
pub mod Base
pub mod Cert
pub mod Clipboard
pub mod Contacts
pub mod Daemon
pub mod Device
pub mod Events
pub mod Files
pub mod Ipc
pub mod Mpris
pub mod Net
pub mod Pair
pub mod Plugins
pub mod Protocol
pub mod RunCommand
pub mod Sftp
