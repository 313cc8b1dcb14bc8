-- ===== src/Lib.antt =====
-- capsudo-rs: `sudo` in the object-capability style. A privileged daemon holds the privilege,
-- bound to a transport endpoint; whoever reaches the endpoint may invoke it, within the daemon's
-- policy.
--
-- The parts, and how they interact:
-- - crates/capsudo-proto is the wire protocol: a message is a type tag and a payload behind a
--   header of eight bytes.
-- - crates/capsudo-transport moves messages, and descriptors with them. Over a local socket the
--   system passes descriptors; over any other byte channel mux.rs simulates that with streams,
--   each pumped from and to a socket pair, under a flow control by credit. ownerspec.rs reads the
--   ownership and the mode that a daemon gives its socket.
-- - crates/capsudo-core drives a session over any transport: the client sends a configuration, the
--   daemon receives it under its policy, runs the program and reports its end, and the client
--   waits for that report.
--
-- The files:
-- - Base: shared names and lemmas; Rust's `Result`, fixed-width little-endian integers, signed
--   numbers, UTF-8, and association lists.
-- - Proto, of crates/capsudo-proto/src/lib.rs: Proto/Defs the data, Proto/Tags the two
--   enumerations on the wire, Proto/Header `Header::encode` and `decode`, Proto/Message `Message`
--   with its constructors and `encode`, Proto/Accessors `as_str`, `as_i32`, `as_u32`, `as_winsize`
--   and `as_session_type`.
-- - Transport: Transport/Defs and Transport/FdSpec the data of
--   crates/capsudo-transport/src/traits.rs and error.rs, Transport/Bytes the byte channel as an
--   interface, Transport/Memory an implementation of it, Transport/OwnerSpec `parse_owner_spec`
--   and `parse_mode` of ownerspec.rs, Transport/Radix the numbers in them. Transport/Writes has
--   the loops that write every byte to a descriptor, of mux.rs and of
--   crates/capsudo-core/src/pty.rs, and Transport/Whole theorems on them.
-- - Unix, of crates/capsudo-transport/src/unix.rs: Unix/Recv `recv_header` and `recv`, Unix/Send
--   `send` and `send_control`, Unix/Listen `UnixListener::bind` and `peer_secontext`, Unix/Connect
--   the constructors, `accept`, `peer_cred` and `control_sender`. Unix/Stream states what the
--   system documents of a connected pair of sockets, and Unix/Memory is an implementation of it.
--   Unix/Received, Unix/Queued, Unix/Ordered and Unix/Session hold theorems on them.
-- - Mux, of crates/capsudo-transport/src/mux.rs: Mux/Defs constants and frames, Mux/Frames
--   `write_frame`, `read_frame`, `decode_message` and `decode_u32`, Mux/Fds `encode_fds` and
--   `decode_fds`, Mux/Ids `alloc_id`, Mux/Flow the type `Flow` with `hello`, `take_hello`, `open`,
--   `grant`, `owe` and `close`, Mux/Stream `Outbound` and `StreamSink` on one stream, Mux/Credit
--   the steps of one stream from the sending pump to the receiving one and back, Mux/Writer
--   `writer_task`, Mux/Reader `reader_task` with `materialize_stream` and the count of live
--   streams, Mux/Barrier `Flow::barrier`, Mux/Outgoing `send` with `start_sender_pumps` and
--   `send_control`, Mux/Pumps the four pumps between a descriptor and its stream, Mux/Sockets
--   `closed_by_holder`, `hung_up`, `set_nonblocking` and `unread`, Mux/Open `new` and
--   `with_window`, and crates/capsudo-transport/src/fakeidm.rs. Mux/Wire, Mux/Channel,
--   Mux/FlowLaws, Mux/Credit/Account, Mux/Credit/Invariant, Mux/Credit/Safety,
--   Mux/Barrier/Reached, Mux/Barrier/Ends, Mux/Slots, Mux/Live, Mux/Passing, Mux/Sent, Mux/Reads,
--   Mux/Delivery, Mux/Delegation, Mux/Session, Mux/Started and Mux/Pumped hold theorems on them.
-- - Core, of crates/capsudo-core/src: Core/Defs the data, Core/Channel a transport as a session
--   sees it, Core/Daemon `receive_configuration` of daemon.rs, Core/Command `build_command` of
--   daemon.rs and the whole of exit.rs, Core/Client client.rs and Core/Resize its task that
--   forwards resizes, Core/System what is asked of the system, Core/Pty `run_interactive` and
--   `winsize_loop` of pty.rs, Core/Relay its `relay`, and with Core/Pty its `Bridge`, Core/Session
--   `serve_connection` and `run_and_report` of daemon.rs. Core/Attenuation, Core/Delivery,
--   Core/Handshake, Core/Outcome, Core/Actions, Core/Reports, Core/HangUp, Core/Served and
--   Core/Resized hold theorems on them.
-- - Pwauth, of crates/capsudod-pwauth/src: Pwauth/Shadow shadow.rs, Pwauth/Gate `handle_client` of
--   main.rs, which asks a client for its password before it passes the connection on,
--   Pwauth/Options `parse_options`, Pwauth/Front `main`. Pwauth/Admission, Pwauth/CommandLine and
--   Pwauth/Pipeline hold theorems on them, the last with the daemon that the front-end chains to.
-- - Capsudod, of crates/capsudod/src/main.rs: Capsudod/Options `parse_options`, and the policy
--   that `main` makes of the options, Capsudod/Serve `main`. Capsudod/CommandLine and
--   Capsudod/Gated hold theorems on them.
-- - Capsudo, of crates/capsudo/src/main.rs: Capsudo/Retry the loop of `main` that connects, runs a
--   session and, if a secret is demanded, connects again with one, Capsudo/Options
--   `parse_options`, the request that `main` makes of the options, and what `prompt_secret` makes
--   of a line, Capsudo/Terminal `RawMode` and `prompt_secret`, Capsudo/Program the whole of
--   `main`. Capsudo/CommandLine, Capsudo/Environment, Capsudo/Restored, Capsudo/RawPrompt and
--   Capsudo/Reconnect hold theorems on them, the last with the front-end that demands the secret.
-- The modules whose name ends in Runs hold tests and the theorems at concrete inputs.
--
-- State and concurrency. A value that tasks share is a record, and each operation on it a function
-- from the old record to the new one. What the tasks do in turn on one stream is a step relation,
-- Mux/Credit/Defs: the sending pump, the reader, the receiving pump and the two writers may each
-- move next. A wait for a `Notify` is its condition, but in Mux/Barrier, where each view of the
-- state says whom it notifies. One step is one operation as a whole, but that a pump may fail
-- between the reader's counting of a frame and its queueing it, which is a step of its own. What
-- `owe` drops while 64 other streams are owed, and what is given back twice, are sums of the
-- state. A call on a transport that has not returned yet is the end of its list of results, and
-- the function that made it has no result either. A `Progress` that the map and a pump share
-- stands in a cell of its own.
--
-- A system call is the same: the pumps and the loops over `read`, `write`, `poll`, `recvmsg` and
-- `sendmsg` go over a list of what these return. The task that reads frames shares the queues of
-- its streams with the pumps; what a pump does between two frames is a step of Mux/Live beside the
-- reader's own.
--
-- Bounds. A number of the source is a natural number with its wrap-around or saturation written
-- out, or a signed one. `reader_loop` alone has fuel, one for each frame: any number above the
-- length of the channel's content is enough, since a frame has nine bytes at least. Every other
-- loop goes over a list of what a transport or the system returns, or over bytes. `usize` is that
-- of a 64-bit host.
--
-- Not modelled: the system calls and the runtime (sockets, ptys, processes, threads, tasks), whose
-- promises on a byte channel are the interfaces of Transport/Bytes, Unix/Send and Unix/Stream;
-- what the programs print; the tests. The tasks that serve the connections of one daemon share
-- nothing and have a channel each. The terminal on the client's stdin is taken to be its
-- controlling terminal. `crypt`, `cfmakeraw`, the user and group databases, the shadow file, the
-- environment and the host's name are parameters.

pub mod Base
pub mod Proto
pub mod Transport
pub mod Mux
pub mod Core
pub mod Capsudo
pub mod Capsudod
pub mod Pwauth
pub mod Unix
