-- ===== src/Lib.antt =====
-- The Modbus library of this repository, as far as its behaviour does not hang on sockets, clocks
-- and locks: the codec of the protocol data units, the three framings, the server before its
-- register store, the clients, and the loops that join them. A list of numbers below 256 stands
-- for a buffer; taking from its front is reading, appending is writing, and a read past the end
-- is an outcome of its own. The operations of the crates that the source calls (bytes, tokio)
-- appear only through that meaning.
--
-- Which file models what:
-- - Frame (src/frame.rs): Types has the requests, the responses, the exceptions and their codes;
--   Buffer the reads and writes; Encode `encode_request`, `encode_response` and the size checks;
--   Decode `decode_request` with a function for each arm, `decode_response` and the conversions.
--   Wire writes the layout of each PDU down apart from the code and says which requests and
--   responses are valid. The other files hold theorems.
-- - Codec (src/codec.rs): the CRC with its table, the LRC, the hexadecimal digits,
--   `encode_rtu_frame`, `encode_ascii_frame`.
-- - Store (src/slave_store.rs): Memory has the vectors and `call`; Model four tables without
--   bounds that a client sees; Service the refinement between the two; Answers what the answers
--   look like on the wire.
-- - Server (src/server.rs, src/transport/send_recv.rs): the service interface and the hooks;
--   Process has `process_server_request` and the framing of a request.
-- - Errors (src/error.rs, src/reconnect.rs), Reconnect (`run_with_reconnect` in
--   src/transport/send_recv.rs).
-- - Rtu (src/transport/rtu.rs), Tcp (src/transport/tcp.rs), Ascii (src/transport/ascii.rs): the
--   parsers, the client from the bytes that it read on, and the server's loop as a step for each
--   event. Ascii.Server also has the client's receive loop over what its reads yield, and
--   Ascii.Exchange joins the two.
-- - Receive (src/transport/send_recv.rs): the drain of stale data and the reads up to a length,
--   over what the reads of a stream yield. Rtu.Receive is the RTU client's receiving half on top
--   of them, Rtu.Call its whole `send_recv`.
-- - Client (src/client.rs): the methods over a `call` that is a parameter; Loopback joins them to
--   the RTU server by a line that loses nothing.
-- - Monitor (src/monitor/ring_buffer.rs): the ring buffer capture. Capture (src/capture.rs,
--   src/intercept.rs): the other captures and the counters, as functions of the calls that an
--   observer gets.
-- - Calendar (src/intercept.rs): the numbers that `format_timestamp` prints, and `days_to_ymd`;
--   Gregorian has the calendar that they are compared with.
-- - Timing (src/bus_timing.rs): the spacing of frames, over a clock that is an argument.
-- - Sniff (src/transport/sniff_io.rs, src/wire_tap.rs): Channel has the bounded channel, Parts
--   and Io the stream that is read and written through it, its background reader and the
--   forwarder to the observer. Trace and Stream are the runs of these parts, interleaved in any
--   order, that the theorems speak of.
-- - Options (src/options.rs, `with_options` of the transports): the settings of a client and the
--   stream made of them.
-- - Base: the shared names, lists measured by native numbers, results, binary digits.
-- - The files Runs apply the theorems to concrete input.
--
-- State is passed explicitly: a service takes the state behind it and returns it, a server is a
-- record of its buffer and that state. The task-local slave id is an argument. A `Mutex` or
-- `RwLock` is held for each modelled operation as a whole, so an operation is one step.
--
-- Fuel: the scan of the ASCII parser gets one round more than the buffer has bytes, as do the
-- loops of the RTU, ASCII and TCP servers over their buffers; each round uses at least one byte.
-- The loop that makes room in a channel recurs on its queue. The reconnect loop gets as many
-- rounds as the theorem names. Running out of fuel is a value of its own, and theorems show that
-- it is not reached.
--
-- Not modelled: sockets, the scheduling of tasks and failing writes; the texts of errors and of
-- the recorded packets, and the sinks that forward them to channels and files.
pub mod Ascii
pub mod Base
pub mod Calendar
pub mod Capture
pub mod Client
pub mod Codec
pub mod Errors
pub mod Frame
pub mod Monitor
pub mod Options
pub mod Receive
pub mod Reconnect
pub mod Rtu
pub mod Server
pub mod Sniff
pub mod Store
pub mod Tcp
pub mod Timing
