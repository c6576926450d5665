-- ===== src/Sniff/Intact.antt =====
-- src/transport/sniff_io.rs: no byte is lost, repeated or reordered on the way from the transport to the
-- consumer.
use oms_modbus.Base.{
  flatten, ℕ, zero, suc, ◌+◌, ◌^◌, ◌≤◌, ◌<◌, ◌≡◌, refl, sym, ap, ◌∙◌, min, Bool, true, false,
  Option, none, some, List, [], ◌∷◌, ◌++◌, ltb, length, take, drop, take_all, if◌then◌else◌, arith,
  Bool-cases, inl, inr, Result, ok, err, append-nil, append_assoc, length-append,
}
use oms_modbus.Sniff.Channel.{
  Chunk, Waker, IoError, SniffChannel, send_error, poll_recv, recv, wake, recv_outcome,
}
use oms_modbus.Sniff.Merge.{length-Merge, Merge-none_right}
use oms_modbus.Sniff.Trace.{IsChannel, chunk_of, start}
use oms_modbus.Sniff.Order.{
  poll_recv-IsChannel, send-IsChannel, flags-IsChannel, set_capacity-IsChannel, start-IsRun,
}
use oms_modbus.Sniff.Parts.{
  new_sniffing, ready, pending, active_reader, tap_forwarder, put, reader_terminated, forward,
  read_channel, read_sniffing,
}
use oms_modbus.Sniff.Stream.{
  leftover_bytes, Act, arrived, read, forwarded, resized, logging, bytes_of, Session, reader_act,
  act, session, IsStream, begin,
}

flatten-append : (xs ys : List Chunk) → flatten (xs ++ ys) ≡ flatten xs ++ flatten ys
flatten-append [] ys = refl
flatten-append (x ∷ xs) ys =
    ap (λ l. x ++ l) (flatten-append xs ys) ∙ sym (append_assoc x (flatten xs) (flatten ys))

take-append-drop : (n : ℕ) (xs : List ℕ) → take n xs ++ drop n xs ≡ xs
take-append-drop zero xs = refl
take-append-drop (suc n) [] = refl
take-append-drop (suc n) (x ∷ xs) = ap (λ l. x ∷ l) (take-append-drop n xs)

-- What is put in the buffer and what is kept are the chunk.
put_lem :
    (room : ℕ) (chunk : Chunk) → (put room chunk).0 ++ leftover_bytes (put room chunk).1 ≡ chunk
unfolding put
put_lem room chunk = elim (Bool-cases (ltb (min (length chunk) room) (length chunk))) [
  | inl more ↦ rw more (take-append-drop (min (length chunk) room) chunk)
  | inr all ↦
      let whole : length chunk ≤ min (length chunk) room = ground arith in
      rw all (append-nil (take (min (length chunk) room) chunk) ∙ take_all _ chunk whole)
]

-- The forwarder shows the tap what its channel delivers.
forwarded_seen :
    (result : Result (Option Chunk) IoError) (channel : SniffChannel) (seen : List Chunk) (now : ℕ)
    → (forward logging now (recv_outcome result) channel seen).2 ≡ seen ++ chunk_of result
unfolding forward logging recv_outcome
forwarded_seen (ok (some chunk)) channel seen now = refl
forwarded_seen (ok none) channel seen now = sym (append-nil seen)
forwarded_seen (err e) channel seen now = sym (append-nil seen)

forwarded_channel :
    (received : Option (Option Chunk)) (channel : SniffChannel) (seen : List Chunk) (now : ℕ)
    → (forward logging now received channel seen).1 ≡ channel
unfolding forward
forwarded_channel (some (some chunk)) channel seen now = refl
forwarded_channel (some none) channel seen now = refl
forwarded_channel none channel seen now = refl

-- A round of the forwarder keeps the tap channel, with what the tap has seen.
tap_forwarder-IsChannel :
    (w : Waker) (now : ℕ) (arrived_chunks seen : List Chunk) (c : SniffChannel)
    → IsChannel arrived_chunks seen c
    → IsChannel arrived_chunks
        (tap_forwarder logging w now c seen).2
        (tap_forwarder logging w now c seen).1
unfolding tap_forwarder recv
tap_forwarder-IsChannel w now arrived_chunks seen c h =
    let polled = poll_recv w c in
    rw
      (
        forwarded_seen polled.0 polled.1 seen now,
        forwarded_channel (recv_outcome polled.0) polled.1 seen now,
      )
      (poll_recv-IsChannel _ _ w c h)

nothing :
    (finished : Bool)
    → ◌≡◌ {A = List ℕ} [] (bytes_of (if finished then ready (err reader_terminated) else pending))
nothing true = refl
nothing false = refl

module _ {T : Type 0} where
  -- The background reader keeps both channels.
  reader_act-IsStream :
      (finished : Bool) (result : Result Chunk IoError) (s : Session T)
      → IsStream s
      → IsStream (reader_act finished result s)
  unfolding reader_act active_reader send_error wake
  reader_act-IsStream true result s h = h
  reader_act-IsStream false (ok []) s h = record {
    delivered = h.delivered;
    data_side = rw (append-nil s.arrived_chunks) (
        flags-IsChannel _ _ s.io.data_channel s.io.data_channel.closed _ none h.data_side
          (λ w e. absurd (cc)));
    tap_side = rw (append-nil s.arrived_chunks) h.tap_side;
    consumed = h.consumed;
  }
  reader_act-IsStream false (ok (b ∷ bs)) s h = record {
    delivered = h.delivered;
    data_side = send-IsChannel _ _ (b ∷ bs) s.io.data_channel h.data_side;
    tap_side = send-IsChannel _ _ (b ∷ bs) s.io.tap_channel h.tap_side;
    consumed = h.consumed;
  }
  reader_act-IsStream false (err e) s h = record {
    delivered = h.delivered;
    data_side = rw (append-nil s.arrived_chunks) (
        flags-IsChannel _ _ s.io.data_channel s.io.data_channel.closed (some e) none h.data_side
          (λ w e. absurd (cc)));
    tap_side = rw (append-nil s.arrived_chunks) h.tap_side;
    consumed = h.consumed;
  }

  -- A read keeps the stream.
  read_channel-IsStream :
      (room : ℕ) (result : Result (Option Chunk) IoError) (c : SniffChannel) (s : Session T)
      → (h : IsStream s) → s.io.leftover ≡ none
      → IsChannel s.arrived_chunks (h.delivered ++ chunk_of result) c
      → IsStream (record s {
        io = (read_channel room (result, c) s.io).1;
        bytes = s.bytes ++ bytes_of (read_channel room (result, c) s.io).0;
      })
  unfolding read_channel
  read_channel-IsStream room (ok (some chunk)) c s h e k = record {
    delivered = h.delivered ++ (chunk ∷ []);
    data_side = k;
    tap_side = h.tap_side;
    consumed =
        flatten-append h.delivered (chunk ∷ [])
        ∙ ap (λ l. flatten h.delivered ++ l) (append-nil chunk)
        ∙ ap (λ l. l ++ chunk) (h.consumed ∙ ap (λ l. s.bytes ++ leftover_bytes l) e)
        ∙ ap (λ l. l ++ chunk) (append-nil s.bytes)
        ∙ ap (λ l. s.bytes ++ l) (sym (put_lem room chunk))
        ∙ sym (append_assoc s.bytes (put room chunk).0 (leftover_bytes (put room chunk).1));
  }
  read_channel-IsStream room (ok none) c s h e k = record {
    delivered = h.delivered ++ [];
    data_side = k;
    tap_side = h.tap_side;
    consumed =
        ap flatten (append-nil h.delivered)
        ∙ h.consumed
        ∙ ap (λ l. l ++ leftover_bytes s.io.leftover)
            (sym (append-nil s.bytes) ∙ ap (λ l. s.bytes ++ l) (nothing s.io.reader_finished));
  }
  read_channel-IsStream room (err cause) c s h e k = record {
    delivered = h.delivered ++ [];
    data_side = k;
    tap_side = h.tap_side;
    consumed =
        ap flatten (append-nil h.delivered)
        ∙ h.consumed
        ∙ ap (λ l. l ++ leftover_bytes s.io.leftover) (sym (append-nil s.bytes));
  }

  read_sniffing-IsStream :
      (w : Waker) (room : ℕ) (leftover : Option Chunk) (s : Session T)
      → s.io.leftover ≡ leftover
      → IsStream s
      → IsStream (record s {
        io = (read_sniffing w room leftover s.io).1;
        bytes = s.bytes ++ bytes_of (read_sniffing w room leftover s.io).0;
      })
  unfolding read_sniffing
  read_sniffing-IsStream w room (some p) s e h = record {
    delivered = h.delivered;
    data_side = h.data_side;
    tap_side = h.tap_side;
    consumed =
        h.consumed
        ∙ ap (λ l. s.bytes ++ leftover_bytes l) e
        ∙ ap (λ l. s.bytes ++ l) (sym (put_lem room p))
        ∙ sym (append_assoc s.bytes (put room p).0 (leftover_bytes (put room p).1));
  }
  read_sniffing-IsStream w room none s e h =
      read_channel-IsStream room (poll_recv w s.io.data_channel).0 (poll_recv w s.io.data_channel).1
        s h e (poll_recv-IsChannel _ _ w s.io.data_channel h.data_side)

  act-IsStream : (a : Act) (s : Session T) → IsStream s → IsStream (act a s)
  unfolding act
  act-IsStream (arrived result) s h = reader_act-IsStream s.io.reader_finished result s h
  act-IsStream (read w room) s h = read_sniffing-IsStream w room s.io.leftover s refl h
  act-IsStream (forwarded w now) s h = record {
    delivered = h.delivered;
    data_side = h.data_side;
    tap_side = tap_forwarder-IsChannel w now _ _ s.io.tap_channel h.tap_side;
    consumed = h.consumed;
  }
  act-IsStream (resized data_cap tap_cap) s h = record {
    delivered = h.delivered;
    data_side = set_capacity-IsChannel _ _ data_cap s.io.data_channel h.data_side;
    tap_side = set_capacity-IsChannel _ _ tap_cap s.io.tap_channel h.tap_side;
    consumed = h.consumed;
  }

  session-IsStream : (acts : List Act) (s : Session T) → IsStream s → IsStream (session acts s)
  unfolding session
  session-IsStream [] s h = h
  session-IsStream (a ∷ acts) s h = session-IsStream acts (act a s) (act-IsStream a s h)

begin-IsStream :
    {T : Type 0} (inner : T) (buf data_cap tap_cap : ℕ)
    → IsStream (begin inner buf data_cap tap_cap)
unfolding begin new_sniffing start
begin-IsStream inner buf data_cap tap_cap = record {
  delivered = [];
  data_side = start-IsRun data_cap;
  tap_side = start-IsRun tap_cap;
  consumed = refl;
}

-- When fewer than 2^64 chunks arrived and the counter of dropped chunks reads 0, none was dropped.
delivered_all :
    (arrived_chunks delivered : List Chunk) (c : SniffChannel)
    → IsChannel arrived_chunks delivered c
    → length arrived_chunks < 2 ^ 64
    → c.dropped_chunks ≡ 0
    → arrived_chunks ≡ delivered ++ c.queue
delivered_all arrived_chunks delivered c h few none_dropped =
    let parts : length arrived_chunks ≡ length h.gone + length c.queue =
      ap length h.whole ∙ length-append h.gone c.queue in
    let none_lost : length h.lost ≡ 0 = omega (arith, length-Merge h.order, h.counter.chunks) in
    h.whole ∙ ap (λ l. l ++ c.queue) (Merge-none_right none_lost h.order)

-- Whatever the background reader, the consumer, the forwarder and changes of the capacities do to a
-- `SniffIo` that was just started, in any order, with reads into any room: while fewer than 2^64 chunks
-- arrived and the data channel's drop counter reads 0, the bytes read, the bytes left over from the last
-- chunk and those of the queue are exactly the bytes that arrived, in their order; and likewise for the
-- chunks that the tap has seen when the tap channel's counter reads 0.
pub stream_intact :
    {T : Type 0} (inner : T) (buf data_cap tap_cap : ℕ) (acts : List Act)
    → let s = session acts (begin inner buf data_cap tap_cap) in
      length s.arrived_chunks < 2 ^ 64
      → (s.io.data_channel.dropped_chunks ≡ 0
          → flatten s.arrived_chunks
            ≡ s.bytes ++ (leftover_bytes s.io.leftover ++ flatten s.io.data_channel.queue))
        × (s.io.tap_channel.dropped_chunks ≡ 0
            → s.arrived_chunks ≡ s.seen ++ s.io.tap_channel.queue)
stream_intact inner buf data_cap tap_cap acts few =
    let h =
      session-IsStream acts (begin inner buf data_cap tap_cap)
        (begin-IsStream inner buf data_cap tap_cap) in
    let s = session acts (begin inner buf data_cap tap_cap) in
    (
      λ e.
          ap flatten (delivered_all _ h.delivered _ h.data_side few e)
          ∙ flatten-append h.delivered s.io.data_channel.queue
          ∙ ap (λ l. l ++ flatten s.io.data_channel.queue) h.consumed
          ∙ append_assoc s.bytes (leftover_bytes s.io.leftover) (flatten s.io.data_channel.queue),
      λ e. delivered_all _ s.seen _ h.tap_side few e,
    )
