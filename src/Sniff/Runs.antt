-- ===== src/Sniff/Runs.antt =====
-- Runs of src/transport/sniff_io.rs.
use oms_modbus.Base.{
  flatten, ℕ, ◌+◌, ◌≡◌, ◌⊎◌, refl, none, some, List, [], ◌∷◌, ◌++◌, length, arith, ok,
}
use mathlib.Core.List.{Memᴰ}
use oms_modbus.Sniff.Channel.{IoError, broken_pipe, send, poll_recv}
use oms_modbus.Sniff.Trace.{ChannelEvent, sent, resized, polled, Run, run, start, step, IsChannel}
use oms_modbus.Sniff.Order.{start-IsChannel}
use oms_modbus.Sniff.Wakes.{woken_or_idle}
use oms_modbus.Timing.{custom}
use oms_modbus.Sniff.Parts.{ready, WireTap, AsyncStream, read_state}
use oms_modbus.Sniff.Io.{
  SniffIo, open_io, poll_read, poll_write, prepare_send, replace_inner, with_buf_size,
  with_channel_capacity, with_tap_channel_capacity, channel_capacity, total_dropped_bytes,
}
use oms_modbus.Sniff.Stream.{Act, arrived, read, forwarded, session, begin, leftover_bytes}
use oms_modbus.Sniff.Intact.{stream_intact}

abbrev broken : IoError
broken = record { kind = broken_pipe; message = "broken" }

-- Three chunks of two bytes in a channel of four: the first is evicted.
abbrev evicting : List ChannelEvent
evicting = sent (1 ∷ 2 ∷ []) ∷ sent (3 ∷ 4 ∷ []) ∷ sent (5 ∷ 6 ∷ []) ∷ polled 0 ∷ []

evicts_oldest :
    ((run evicting (start 4)).delivered ≡ (3 ∷ 4 ∷ []) ∷ [])
    × ((run evicting (start 4)).channel.dropped_chunks ≡ 1)
    × ((run evicting (start 4)).channel.dropped_bytes ≡ 2)
unfolding run step start send poll_recv
evicts_oldest = (refl, refl, refl)

-- A chunk larger than the capacity is dropped, with all chunks that were queued.
oversize : (run (sent (1 ∷ []) ∷ sent (1 ∷ 2 ∷ 3 ∷ []) ∷ []) (start 2)).channel.dropped_chunks ≡ 2
unfolding run step start send
oversize = refl

start-IsChannel_example :
    let r = run evicting (start 4) in IsChannel r.sent_chunks r.delivered r.channel
start-IsChannel_example = start-IsChannel 4 evicting

-- A consumer that waits with the waker 7.
abbrev waiting : Run
waiting = run (polled 7 ∷ []) (start 4)

woken_or_idle_example :
    Memᴰ 7 (run (resized 3 ∷ sent (1 ∷ []) ∷ []) waiting).woken
    ⊎ ((poll_recv 8 (run (resized 3 ∷ sent (1 ∷ []) ∷ []) waiting).channel).0 ≡ ok none)
unfolding run step start poll_recv
woken_or_idle_example =
    woken_or_idle 7 8 (resized 3 ∷ sent (1 ∷ []) ∷ []) waiting (tt, (tt, tt))
      (start-IsChannel 4 (polled 7 ∷ [])) refl refl

abbrev two_reads : List Act
two_reads =
    arrived (ok (1 ∷ 2 ∷ 3 ∷ []))
    ∷ read 0 2
    ∷ forwarded 1 5
    ∷ arrived (ok (4 ∷ []))
    ∷ read 0 2
    ∷ read 0 9
    ∷ []

two_reads_lem : (session two_reads (begin tt 64 100 100)).bytes ≡ 1 ∷ 2 ∷ 3 ∷ 4 ∷ []
unfolding session begin
two_reads_lem = refl

stream_intact_example :
    let s = session two_reads (begin tt 64 100 100) in
    (s.io.data_channel.dropped_chunks ≡ 0
      → flatten s.arrived_chunks
        ≡ s.bytes ++ (leftover_bytes s.io.leftover ++ flatten s.io.data_channel.queue))
    × (s.io.tap_channel.dropped_chunks ≡ 0 → s.arrived_chunks ≡ s.seen ++ s.io.tap_channel.queue)
unfolding session begin
stream_intact_example = stream_intact tt 64 100 100 two_reads (omega arith)

-- A device that reads the byte 9 and takes all that is written, and counts the two.
abbrev device : AsyncStream ℕ
device = record {
  poll_read = λ room n. (ready (ok (9 ∷ [])), n + 1);
  poll_write = λ bytes n. (ready (ok (length bytes)), n + 1);
}

-- A tap that counts.
abbrev counting : WireTap ℕ
counting = record {
  on_write = λ bytes now n. n + 1;
  on_read = λ bytes now n. n + 1;
  on_error = λ bytes cause now n. n + 1;
}

abbrev line : SniffIo ℕ ℕ
line = open_io 0 none (some (custom 50))

line_reads : (poll_read device 0 100 8 [] line).0 ≡ ready (ok (9 ∷ []))
unfolding poll_read read_state open_io
line_reads = refl

waits_thirty : prepare_send 120 (poll_write device counting 100 (1 ∷ 2 ∷ []) line).1 ≡ 30
unfolding poll_write prepare_send open_io custom
waits_thirty = refl

noted_at_zero : prepare_send 20 (poll_write device counting 0 (1 ∷ 2 ∷ []) line).1 ≡ 31
unfolding poll_write prepare_send open_io custom
noted_at_zero = refl

-- A new transport keeps the capacities that were set; the old buffer size stays with the old reader.
replaced :
    let io : SniffIo ℕ ℕ =
      with_channel_capacity 7
        (with_tap_channel_capacity 5 (with_buf_size 64 (open_io 0 (some 0) none))) in
    (channel_capacity io ≡ 7)
    × (channel_capacity (replace_inner 1 io) ≡ 7)
    × (total_dropped_bytes io ≡ 0)
unfolding with_channel_capacity with_tap_channel_capacity with_buf_size open_io replace_inner
replaced = (refl, refl, refl)
