-- ===== src/Receive.antt =====
-- src/transport/send_recv.rs: the loops over the reads of a stream. What the reads yield is a list, one
-- outcome for each; where it ends, the code still waits, and the result is `none`. A read takes some
-- microseconds, no more than it was allowed.
mod Runs
pub mod Drain
pub mod Whole
use oms_modbus.Base.{
  ℕ, ◌-◌, ◌≤◌, min, Bool, List, [], ◌∷◌, ◌++◌, Option, none, some, Result, ok, err, if◌then◌else◌,
  leb, ◌==◌, length,
}
use oms_modbus.Errors.{ModbusError}

-- What a read of a client yields: bytes, at least one, the end of the stream, an error, the end of the
-- time during the read, or before it.
pub data ReadOutcome : Type 0 where
  some_bytes : List ℕ → ReadOutcome
  closed : ReadOutcome
  failed : ModbusError → ReadOutcome
  elapsed : ReadOutcome
  expired : ReadOutcome

-- What is returned when there may be no more bytes.
unfoldable pub partial : ModbusError → List ℕ → Result (List ℕ) ModbusError
partial e [] = err e
partial e (b ∷ bs) = ok (b ∷ bs)

-- `read_at_least`, with the bytes that it has read.
unfoldable pub read_at_least : ℕ → List ℕ → List ReadOutcome → Option (Result (List ℕ) ModbusError)
unfolding partial
read_at_least target buf [] = if leb target (length buf) then some (ok buf) else none
read_at_least target buf (some_bytes chunk ∷ reads) =
    let rest = read_at_least target (buf ++ chunk) reads in
    if leb target (length buf) then some (ok buf) else rest
read_at_least target buf (closed ∷ reads) =
    if leb target (length buf) then some (ok buf) else some (partial ModbusError.connection buf)
read_at_least target buf (failed e ∷ reads) =
    if leb target (length buf) then some (ok buf) else some (err e)
read_at_least target buf (elapsed ∷ reads) =
    if leb target (length buf) then some (ok buf) else some (partial ModbusError.timeout buf)
read_at_least target buf (expired ∷ reads) = some (ok buf)

-- What a read of the drain yields, after how many microseconds: bytes, the end, an error, or silence.
pub data DrainRead : Type 0 where
  stale : ℕ → DrainRead
  ended : DrainRead
  broken : ModbusError → DrainRead
  quiet : DrainRead

abbrev pub drain_quiet_us : ℕ
drain_quiet_us = 10000

abbrev pub drain_max_us : ℕ
drain_max_us = 200000

-- The loop of `drain_stale_data`, with the microseconds up to its deadline.
unfoldable pub drain_loop : ℕ → List DrainRead → Option (Result (Unit {0}) ModbusError)
drain_loop remaining [] = if remaining == 0 then some (err ModbusError.connection) else none
drain_loop remaining (stale taken ∷ reads) =
    let rest = drain_loop (remaining - taken) reads in
    if remaining == 0 then some (err ModbusError.connection) else rest
drain_loop remaining (ended ∷ reads) = some (err ModbusError.connection)
drain_loop remaining (broken e ∷ reads) =
    if remaining == 0 then some (err ModbusError.connection) else some (err e)
drain_loop remaining (quiet ∷ reads) =
    if remaining == 0 then some (err ModbusError.connection) else some (ok tt)

-- `drain_stale_data`; the first read waits a millisecond, before the deadline is set.
unfoldable pub drain_stale_data : List DrainRead → Option (Result (Unit {0}) ModbusError)
unfolding drain_loop
drain_stale_data [] = none
drain_stale_data (stale taken ∷ reads) = drain_loop drain_max_us reads
drain_stale_data (ended ∷ reads) = some (err ModbusError.connection)
drain_stale_data (broken e ∷ reads) = some (err e)
drain_stale_data (quiet ∷ reads) = some (ok tt)
