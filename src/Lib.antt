-- ===== src/Lib.antt =====
-- The J-Link MCP server: what its domain crate and its worker process promise.
--
-- The program lets a client debug a Cortex-M target through a SEGGER J-Link probe. The MCP process
-- (crates/jlink-mcp) reads the configuration and the symbols, and sends typed requests over a pipe to
-- one worker process per probe (crates/jlink-worker). The worker holds the probe's lease, the J-Link
-- DLL and one target connection: session.rs decides what a request may do and what is known of the
-- target, control.rs, debug.rs and program.rs run the requests, and gateway.rs alone calls the DLL.
-- High-speed sampling (HSS) streams records that crates/jlink-capture stores. What can be decided
-- without hardware stands in crates/jlink-domain, and every process shares it.
--
-- Files and code:
--   Base: numbers with Boolean tests, lists, an equality interface for derived `PartialEq`, stable
--     sorting, text as code points and its lines, UTF-8, decimal and hexadecimal numerals, signed and
--     machine integers.
--   Domain/Error: crates/jlink-domain/src/error.rs, JlinkError, its details, the `?` operator,
--     and in Codes the wire spelling of the codes.
--   Domain/Json: JSON values, with the maps of serde_json as lists sorted by name.
--   Domain/Dwarf: crates/jlink-domain/src/dwarf.rs, the layout of a variable and its access plan.
--   Domain/TypedValue: typed_value.rs. Bits has the storage of integers and bit-fields, Numbers the
--     JSON forms of integers and pointers, Scalar the scalars, Layout the aggregates.
--   Domain/Selector: dwarf.rs, the paths that select a variable, and AccessPlan::validate_for_execution.
--   Domain/Memory, with Map, Merge and Write: memory.rs, ranges, the device memory map,
--     classification, the guard on ordinary writes, merged reads, the readback comparison; Request has
--     DebugRequest and its validation.
--   Domain/State: state.rs and the command kinds of ipc.rs, the connection lifecycle and a lost worker.
--   Domain/Program, with Ranges and Compare: program.rs, Flash ranges and the verify accumulator.
--   Domain/Image: image.rs, the normalisation of load segments; Text, what the readers of text images
--     share, IntelHex and SRecord, which read them, Elf, which reads what the object crate finds, and
--     Parse, FirmwareImage::parse and symbol_identity_plan. In IntelHex and SRecord, Records says how
--     the format writes a file.
--   Domain/Identity: image.rs, the firmware identity block and plan; Fingerprint, whole target ranges.
--   Domain/Core: core.rs, core registers and control requests.
--   Domain/Session: session.rs of the domain crate, the target connection and the validation report.
--   Domain/Hss, with Frame and Capture: hss.rs, the record layout and parser, the capture lifecycle.
--   Domain/Hss/Quality: hss.rs, the quality facts; Rate has the rate assessment, Tracker what
--     HssQualityTracker observes, Summary and Verdict what it concludes, Watched and Told what it
--     knows of the records and the overflows that it was told of.
--   Domain/Hss/Rule: hss.rs, the threshold rules; Path has their paths, Numbers the comparisons of
--     numbers, Matching the matches. Domain/Hss/Plan: hss.rs, raw selectors, HssStartPlan (Start makes
--     it, Placed and Rebuilt are on its offsets and its second making, Check checks it, Variables reads
--     a sample) and HssCapabilities. Domain/Hss/Registry: hss.rs,
--     HssStartRegistry.
--   Worker/Gateway: the operations of DllGateway (gateway.rs) that a session calls, as an interface.
--   Worker/Manager: crates/jlink-worker/src/session.rs, the state of TargetSessionManager, its guards
--     and its records, and in Status what it tells. Worker/Recovery: recover_target and reset_target.
--     Worker/Connect: connect and disconnect. Worker/Validate: validate and validate_temporary.
--   Worker/Control: control.rs, execute_control. Worker/Debug: debug.rs, verified writes and the
--     firmware identity proof; Execute has execute_debug, and ensure_debug_allowed of session.rs,
--     Traced a gateway that notes what is written.
--   Worker/Preflight and Worker/Download: gateway.rs, what program_image does before, during and after
--     the DLL download, and Domain/Program/Facts: program.rs, the facts it records.
--   Worker/Program: program.rs of the worker, execute_program over any reader of images; Files has
--     read_image.
--   Worker/Session: the sequences of requests that a session can go through, and their invariant.
--   Capture/Json and Capture/Cursor: crates/jlink-capture/src/cursor.rs, the canonical form of a query,
--     and the cursors that continue it.
--
-- How the code is read:
--   - A `&mut self` method is a function from the state to the state and the result; a call of the
--     gateway also takes and gives back the gateway's state, of which nothing is known. A method is cut
--     where it calls the gateway, and each part takes the answer as an argument.
--   - An error keeps its code, its retry flag and its details, sorted by key as in the map. Messages, and details that are text for
--     people, are left out; an address in a detail is its number instead of hexadecimal text, and an
--     error within a detail is its code.
--   - u64 and u32 arithmetic is that of a release build: checked and saturating operations are written
--     out, and a plain addition wraps. A u64 length is never cut by `usize`, which has 64 bits.
--   - A vector that a loop appends to is a list with its back first, reversed at the end;
--     `sort_by_key` is a stable insertion sort; a string is its list of code points, and
--     in Capture of its UTF-8 bytes.
--   - A mutable slice `&mut data[start..end]` is a copy of these bytes that is put back where it was.
--     Masks and shifts of u64 are quotients and remainders by powers of two.
--   - A BTreeMap of which only `get`, `insert` and `remove` are used is a list of its keys and values.
--   - Loops are structural. There are four fuels: a number is enough for its digits in Base/Radix,
--     the length of the image segment for its comparison in Domain/Program/Compare, the number of bytes
--     for the chunks of a download in Worker/Download, and the length of a path for its steps in
--     Domain/Selector.
--   - SHA-256 is a parameter, since it is the `sha2` crate's, and so are the bytes that serde_json
--     writes and reads for a cursor, or writes of a plan and a target for their fingerprints. Floats are
--     a parameter of the typed values (Floats): the bytes, the special values and the f32 range, and of
--     the rules (FloatOrder): the order, the equality and the difference. Of them only HasWidths is ever
--     supposed, that an f32 has 4 bytes and an f64 has 8. The extension of a path and what the object
--     crate finds in an ELF file are parameters of FirmwareImage::parse, and the bytes of a file one of
--     read_image. Of SHA-256 only that a digest is written as 64 hexadecimal digits is ever supposed.
--
-- Not modelled: serde shapes and the text of JSON, file and pipe input and output, Windows calls, the ELF
-- and DWARF readers of third-party crates, the rest of the gateway, the rest of crates/jlink-capture, the
-- service that runs a capture in the worker, and the MCP process.
mod Base
pub mod Domain
pub mod Worker
pub mod Capture
