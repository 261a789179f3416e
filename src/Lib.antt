-- ===== src/Lib.antt =====
-- UnionDesk lets several machines share one keyboard, mouse and clipboard and send each other files.
-- Each machine runs one engine, which owns all state and handles one event at a time; connections,
-- the platform, the discovery and the user interface send it events, and it sends effects out. This
-- library models the engine and the parts that it computes with.
--
-- Which file models what:
--   Geom, Input, Config, Layout: crates/ud-core/src/geom.rs, input.rs (with
--     crates/ud-input/src/event.rs), config.rs and layout.rs, one function each by its own name.
--   Protocol, Protocol/Chunk: the messages of crates/ud-core/src/protocol.rs and the binary frame of
--     a piece of a file (FileChunk::encode and decode).
--   Discovery: the table of crates/ud-net/src/discovery.rs (upsert, remove, list, prune), its beacons
--     (Beacon: our_beacon, beacon_loop) and the sightings of multicast DNS (Multicast: mdns_loop).
--   Codec: crates/ud-net/src/codec.rs, with the JSON library as a parameter.
--   Session: crates/ud-net/src/session.rs: the two queues of a connection, writer_loop and
--     reader_loop, and run_handshake with dial and accept (Handshake); the Noise protocol of the
--     library snow is a parameter.
--   Clipboard: the worker of crates/ud-clipboard/src/lib.rs.
--   Platform/Windows, Platform/Macos: the backends of crates/ud-input/src/platform: keymap.rs, the
--     statics and apply_capture (State), mouse_proc and keyboard_proc (Hooks), tap_callback
--     (Callback), inject (Inject), and the loops of their threads (Pump, Run).
--   Transfer, Transfer/Fresh: sanitize_component, sanitize_relative and unique_path of
--     crates/ud-engine/src/transfer.rs.
--   Engine/State: the struct Engine of crates/ud-engine/src/engine.rs and what it holds.
--   Engine/Backend: what the input backend makes of what the engine tells it, the field `backend`.
--   Engine/Control, Engine/Relay: the section "input" of engine.rs: on_cursor_tick, try_engage,
--     release_control, on_return_home, on_captured, on_remote_input, on_control.
--   Engine/Sessions, Engine/Pairing: on_session_established, on_session_ended, request_pairing,
--     on_pairing_handoff, on_pair_response, on_pair_result, answer_pairing.
--   Engine/Transfers, Engine/Chunks: the section "file transfer".
--   Engine/View: the list of machines in snapshot of engine.rs, with the rows of view.rs.
--   Engine/Sender: spawn_sender of engine.rs. Engine/Collect: collect_entries of transfer.rs.
--   Engine/Commands, Engine/Dispatch: on_command, on_message, handle, on_housekeeping, run, shutdown.
--   Common and Float hold what these share; Tests runs the theorems on concrete machines. The other
--   files hold proofs, and are named for what they prove.
--
-- How the model reads the code:
--   * A handler is a function from the state to the state. What it finds around it (clocks, random
--     numbers, the outcome of each call into the platform, a connection or the file system) is the
--     record Env; what it sends out is appended to the field `log`, oldest first, as Effect.
--   * A HashMap is an association list, whose order stands for the open order of iteration; a
--     HashSet is a list without repetition.
--   * A device id is a UUID in its one fixed form and is ordered as its 128-bit number is, so it is
--     that number. A time is in milliseconds, or in seconds where the code uses unix time.
--   * An f64 is a whole number of thousandths. Sums and comparisons are exact, products and
--     quotients are cut to a thousandth; there is no NaN and no infinity.
--   * u64 counters wrap or saturate where the code does, at 2 ^ 64.
--   * A path is the list of its components, read as POSIX does. The texts that the code walks are
--     lists of code points, all others are native strings.
--   * The loop of unique_path runs on fuel, its 9998 rounds; after them the code returns the path
--     itself, and so does the model.
--   * Asynchronous loops (the writer and the reader of a connection, the threads of the backends and
--     of the clipboard) are functions of one round, run over a list of rounds in any order. What an
--     operating system or a library answers is a record of answers, or of functions.
--   * An i32 coordinate is an integer without bounds; a cast of an f64 to i32 is cut to the bounds.
--   * The wording of notices and log lines, and of what a snapshot shows all but the machines,
--     the control mode and the port, are left out.
--
-- Not modelled: the Noise protocol itself, sockets, the
-- enumeration of displays and the permission prompts of the backends, files of settings, and the
-- Tauri application.
pub mod Common
pub mod Float
pub mod Geom
pub mod Input
pub mod Config
pub mod Layout
pub mod Protocol
pub mod Discovery
pub mod Transfer
pub mod Engine
pub mod Codec
pub mod Session
pub mod Platform
pub mod Clipboard
pub mod Tests
