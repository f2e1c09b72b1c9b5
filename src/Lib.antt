-- ===== src/Lib.antt =====
-- Verification of qwertty, a Rust library for terminal applications.
--
-- The program. Bytes from a terminal go through the syntax tokenizer (src/syntax.rs,
-- src/syntax/token.rs), which cuts them into tokens whatever the chunks of the reads are. A decoder
-- turns tokens into events. A session that has asked the terminal something passes every event to
-- the query correlator (src/correlate.rs), which recognises replies by the report parsers
-- (src/report.rs, src/event/kitty.rs), keeps each for its waiters, and hands every other event on.
-- The session notes each mode that it switches on in a ledger (src/session/ledger.rs), which says
-- how to restore the terminal. Commands (src/command.rs, src/commands) are the bytes that the
-- program writes; the builders of src/escape.rs frame them, and their proofs read them back with the
-- tokenizer. The synchronous session (src/session.rs) and the asynchronous one (src/tokio_session.rs)
-- write a request and read until its reply comes; what is no reply stays input. On Windows, console
-- records become the bytes that a Unix terminal would have sent (src/terminal/console_translate.rs,
-- src/terminal/console_input.rs), and go the same way.
--
-- The files.
--   Prelude          shared names, Boolean tests, lists of bytes, runs of a byte class
--   Syntax.Token     tokens and control parameters (src/syntax/token.rs); Params: their laws
--   Syntax.Classes   byte classes and UTF-8 widths; Scan: scan_control_prefix
--   Syntax.Strings   StringAccum and consume_string; Paste: PasteAccum and consume_paste
--   Syntax.Step      step and the parse_ functions it calls
--   Syntax.Parser    SyntaxParser: feed, finish, pending_bytes
--   Syntax.Spans     which bytes of the input a token list stands for
--   Report           the from_ functions of the report types; Numbers: their number
--                    parsers
--   Correlate        Correlator; Matcher: Expectation, Reply and match_event
--   Session          enter, leave, track_mode (src/session.rs) and the restore handle
--                    (src/session/restore.rs); Ledger: ModeLedger (src/session/ledger.rs)
--   Input            SemanticDecoder (src/event.rs); Keys, Kitty, Mouse, Reports (focus and resize),
--                    Pasted, Win32: its decoders (src/event); Characters: the characters of text
--   Commands         Command and the builders (src/command.rs, src/escape.rs); Buffer: CommandBuffer;
--                    Cursor, Screen, Terminal, Style, Osc, Graphics: src/commands
--   Caps             capabilities and their inference (src/caps.rs); Bundle: the probe; Width,
--                    Policy, Flags: src/width.rs, src/policy.rs, src/session/kitty.rs
--   Query            the synchronous query driver (src/session.rs): reads and attribution of their
--                    bytes; Driver: its loop and the typed helpers; Probe: the capabilities' probe;
--                    Pieces: the input cut by the decoder alone, for the account of a query
--   Async            the asynchronous session (src/tokio_session.rs): queues and queries; Await:
--                    next_event; Bundle: the probe; Suspended: suspend and resume
--   Console          src/terminal/console_translate.rs; Reader: src/terminal/console_input.rs
--   Tests            definitions and theorems at concrete inputs
-- The other files below Syntax, Report, Correlate, Session, Input, Commands, Caps,
-- Width, Query, Async and Console hold proofs and are named for what they prove.
--
-- How the model reads the source. A byte is a number, a byte string or a Rust String a list of
-- them, and a position in a buffer is the rest of the buffer behind it. A method that takes
-- `&mut self` returns the changed state beside its result. usize counters of bytes are unbounded;
-- u16, u32 and u64 arithmetic keeps its checks, its saturation or its wrap-around. A `while` loop
-- over a buffer runs on fuel, the length of the buffer, which is enough as every round takes a byte
-- off; the loops over one string or one paste are structural. Fuel that runs out is the result
-- `none`. The payload limit is any number.
-- The correlator takes the typed input events as a type parameter, which the decoder fills. A
-- `char` is its scalar value and the text of a key event a list of them. The terminal
-- device is a record of its calls, each with the device afterwards and an error; the restore
-- handle's write of the blob and of the captured mode is a function on the device.
-- A title or a link target is the list of its characters, other text of a command its bytes, and a
-- printed number its decimal digits. The environment is a function; the segmentation into grapheme
-- clusters, the width of a character and the table of profiles are parameters of the width.
--
-- What the clock, poll and the reads of a device do to a query or to the event loop is a list with an
-- entry for each round or await; a list that ends before the loop does gives `none`, and a round that
-- ends the loop is enough for a result. An error of the device is of any type. A field of a session
-- that a driver does not use is left out of its state. A console record is what the reader takes from
-- it, a size record the window that the console then reports; the 16-bit and 32-bit fields are numbers
-- and signed ones integers.
--
-- Not modelled: the generated width table; the devices, the reads of console records and the
-- readiness transport, which are system calls; signal streams, run_detached and the helpers of the
-- sessions that write one command and note a mode; the tools; and the interleaving of the restore
-- handle's threads.
pub mod Prelude
pub mod Syntax
pub mod Report
pub mod Correlate
pub mod Input
pub mod Commands
pub mod Caps
pub mod Width
pub mod Policy
pub mod Flags
pub mod Console
pub mod Query
pub mod Async
pub mod Session
mod Tests
