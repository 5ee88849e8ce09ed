-- ===== src/Lib.antt =====
-- garwarp, a desktop portal backend: its daemon, its control protocol and its control client.
--
-- The program is a daemon (crate garwarp) with two faces. Local clients send it one line of text
-- over a Unix socket, and it answers with one line; the crate garwarp-ipc is the protocol, and
-- garwarpctl the client. Applications reach it over D-Bus, where the methods of the portal are
-- placeholders that register a request and fail it. Either face owns a registry of requests; the
-- registry behind the socket is also kept in a file, from which it is recovered at a start.
--
-- Files, and the code that each is about:
--   Window    garwarp/src/window.rs: parent windows, `parse_parent_window`
--   Error     garwarp/src/error.rs: `PortalError`, `map_portal_error`, `map_request_error`
--   Validate  garwarp/src/validate.rs
--   Request   garwarp/src/request.rs: `RequestRegistry`; the owner, the states, the entries and the
--             errors are in Request/Types. Below Request stand the lemmas, by subject: the invariant
--             of the map, the machine of the states, what an operation leaves at an id, histories,
--             counts, expiry, records, transitions
--   Ipc       garwarp-ipc/src/lib.rs: Health, Target, Control (`ControlRequest`) and Response
--             (`ControlResponse`), with the round trips below them
--   Portal    garwarp/src/portal.rs: request handles, `derive_request_id_from_handle`
--   Dispatch  garwarp/src/portal_dispatch.rs: `PortalDispatch`
--   Store     garwarp/src/request_store.rs: the text of the store, `load_registry`; Store/Files is
--             `atomic_write`, in a directory of named files
--   Runtime   garwarp/src/runtime.rs: the paths
--   Daemon    garwarp/src/daemon.rs: State (the state, its health and its start), Connection
--             (`handle_connection`) and Round (one round of the loop of `run`), where a write of the
--             store replaces its text or fails; Site is the start and the loop once more, over the
--             directory, with every call that a write makes and the quarantine of an unreadable
--             store, and Site/Loop/Refines relates the two. Process is `run` from its first line to
--             its last, with the lock and the socket
--   Options   garwarp/src/portal_options.rs
--   Dbus      garwarp/src/dbus.rs: the methods, and the session that serves them (Dbus/Session)
--   Config    garwarp/src/config.rs, and the command line of garwarp/src/main.rs, with `main`
--             in Config/Main
--   Lock      garwarp/src/lock.rs: the text of the lock file; Lock/Files has every call that can fail,
--             Lock/Steps each call as a step of one of two processes
--   Ctl       garwarpctl/src/main.rs: the command line; Ctl/Run is `run` and `main`, with what they
--             print, Ctl/Exchange puts the client and the daemon at the two ends of a connection,
--             Ctl/Smoke is `run_portal_smoke`
--   Examples  runs of the parts at concrete values, as are the other modules of that name
--   Base      the string, map, sort and number functions of Rust's library that these use
--
-- How it is modelled. A text is the list of its code points. A function with `&mut self` takes the
-- state last and returns it first. A result is `ok` or `err`. A `HashMap` is an association list
-- that is looked up by key and whose order stands for the unspecified order of iteration. An
-- `Instant` is a natural number of nanoseconds, and each read of the clock is an argument, as is
-- each outcome of a write. `Instant::duration_since` is subtraction that stops at 0. The
-- white space of `trim` and `split_whitespace` is that of Unicode. A number is parsed as
-- `from_str_radix` does, with its sign and its bound. Every loop of the
-- program is over a text, a list or the sequence of its rounds, which is an argument. Only
-- `show_radix` of Base/Digits, the format of a number by Rust's library, runs on fuel: `write_digits`
-- has one more than the number, and a division by a radix of at least 2 makes a number smaller.
--
-- A file is text or bytes that are no text, and a call of `std::fs` in the directory of the store
-- succeeds or fails as the system says; a write that fails may leave any contents in its file.
--
-- Parameters: the D-Bus values and their two conversions (Options, Dbus), the calls on the daemon's
-- connection to the bus (Dbus/Session), the look at /proc (Lock), the environment (Config, Runtime),
-- what `daemon::run` returns to `main` (Config/Main), the derived `Debug` of a reply (Ctl/Run), and
-- the client's bus and the object paths that zbus accepts (Ctl/Smoke). Ctl/Run takes the output of
-- the smoke test as an argument, which `output_of` of Ctl/Smoke gives.
--
-- No other process changes the runtime directory while `acquire` or `run` is between two of its
-- calls, but in Lock/Steps and Lock/Race.
--
-- Not modelled: the log, what a permission lets whom do, the credentials of a socket's peer, and
-- what the bus does between two calls.
pub mod Base
pub mod Window
pub mod Request
pub mod Error
pub mod Validate
pub mod Ipc
pub mod Portal
pub mod Dispatch
pub mod Store
pub mod Daemon
pub mod Runtime
pub mod Options
pub mod Dbus
pub mod Config
pub mod Lock
pub mod Ctl
pub mod Examples
