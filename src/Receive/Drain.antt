-- ===== src/Receive/Drain.antt =====
-- src/transport/send_recv.rs: the drain of stale data ends.
use oms_modbus.Base.{
  ℕ, ◌+◌, ◌-◌, ◌<◌, ◌≡◌, refl, List, [], ◌∷◌, Bool, true, false, Option, none, some, Result, ok,
  err, if◌then◌else◌, ◌==◌, arith,
}
use mathlib.Core.List.{Memᴰ}
use oms_modbus.Errors.{ModbusError}
use oms_modbus.Receive.{
  DrainRead, stale, ended, broken, quiet, drain_max_us, drain_loop, drain_stale_data,
}

-- How long reads of stale data took.
abbrev pub busy_time : List DrainRead → ℕ
busy_time [] = 0
busy_time (stale taken ∷ reads) = taken + busy_time reads
busy_time (ended ∷ reads) = busy_time reads
busy_time (broken e ∷ reads) = busy_time reads
busy_time (quiet ∷ reads) = busy_time reads

abbrev Drained : Type 0
Drained = Result (Unit {0}) ModbusError

still_waiting :
    (b : Bool) (e : Drained) (rest : Option Drained)
    → (if b then some e else rest) ≡ none
    → (b ≡ false) × (rest ≡ none)
still_waiting true e rest h = absurd (cc)
still_waiting false e rest h = (refl, h)

not_busy :
    (b : Bool) (e : ModbusError) (rest : Option Drained)
    → (if b then some (err e) else rest) ≡ some (ok tt)
    → rest ≡ some (ok tt)
not_busy true e rest h = absurd (cc)
not_busy false e rest h = h

drain_loop-busy :
    (remaining : ℕ) (reads : List DrainRead)
    → drain_loop remaining reads ≡ none
    → busy_time reads < remaining
unfolding drain_loop
drain_loop-busy remaining [] h = ground arith
drain_loop-busy remaining (stale taken ∷ reads) h =
    let (some_left, waiting) =
      still_waiting (remaining == 0) _ (drain_loop (remaining - taken) reads) h in
    ground (arith, some_left, drain_loop-busy (remaining - taken) reads waiting)
drain_loop-busy remaining (ended ∷ reads) h = absurd (cc)
drain_loop-busy remaining (broken e ∷ reads) h = absurd (ground arith)
drain_loop-busy remaining (quiet ∷ reads) h = absurd (ground arith)

drain_loop-quiet :
    (remaining : ℕ) (reads : List DrainRead)
    → drain_loop remaining reads ≡ some (ok tt)
    → Memᴰ quiet reads
unfolding drain_loop
drain_loop-quiet remaining [] h = absurd (ground arith)
drain_loop-quiet remaining (stale taken ∷ reads) h = Memᴰ.tail (
    drain_loop-quiet (remaining - taken) reads
      (not_busy (remaining == 0) _ (drain_loop (remaining - taken) reads) h))
drain_loop-quiet remaining (ended ∷ reads) h = absurd (cc)
drain_loop-quiet remaining (broken e ∷ reads) h = absurd (ground arith)
drain_loop-quiet remaining (quiet ∷ reads) h = Memᴰ.head refl

-- Whatever the reads of `drain_stale_data` yield: while it still waits, the reads behind the first have
-- taken less than its limit of 200 milliseconds, so that with as much stale data it returns; and it
-- returns success only when a read, or the first, was silent.
pub drain_stale_data-ends :
    (first : DrainRead) (reads : List DrainRead)
    → (drain_stale_data (first ∷ reads) ≡ none → busy_time reads < drain_max_us)
      × (drain_stale_data (first ∷ reads) ≡ some (ok tt) → Memᴰ quiet (first ∷ reads))
unfolding drain_stale_data
drain_stale_data-ends (stale taken) reads =
    (drain_loop-busy drain_max_us reads, λ h. Memᴰ.tail (drain_loop-quiet drain_max_us reads h))
drain_stale_data-ends ended reads = (λ h. absurd (cc), λ h. absurd (cc))
drain_stale_data-ends (broken e) reads = (λ h. absurd (cc), λ h. absurd (cc))
drain_stale_data-ends quiet reads = (λ h. absurd (cc), λ h. Memᴰ.head refl)
