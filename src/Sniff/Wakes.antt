-- ===== src/Sniff/Wakes.antt =====
-- src/transport/sniff_io.rs: a consumer that waits on the channel is woken for all there is to see.
use oms_modbus.Base.{
  ◌+◌, ◌≤◌, ◌≡◌, ◌⊎◌, refl, ap, ◌∙◌, Bool, true, false, ltb, none, some, List, [], ◌∷◌, ◌++◌,
  length, arith, inl, inr, ok, err, All,
}
use mathlib.Core.List.{Memᴰ}
use oms_modbus.Sniff.Channel.{
  Chunk, Waker, SniffChannel, make_room, push, send, send_error, set_capacity, close, wake,
  poll_empty, poll_queue, poll_recv, count_dropped, eof, IoError,
}
use oms_modbus.Sniff.Bounds.{size, make_room-IsRoom}
use oms_modbus.Sniff.Trace.{
  ChannelEvent, sent, failed, resized, shut, polled, Run, woken_by, step, run, IsIdle,
}
use oms_modbus.Sniff.Order.{IsRun, step-IsRun}

-- What the producer, the reader's owner and the settings do; the consumer does not poll.
abbrev pub IsProducer : ChannelEvent → Type 0
IsProducer (polled w) = ⊥
IsProducer _ = Unit {0}

Memᴰ-last : (w : Waker) (ws : List Waker) → Memᴰ w (ws ++ (w ∷ []))
Memᴰ-last w [] = Memᴰ.head refl
Memᴰ-last w (x ∷ ws) = Memᴰ.tail (Memᴰ-last w ws)

Memᴰ-append : {w : Waker} (ws vs : List Waker) → Memᴰ w ws → Memᴰ w (ws ++ vs)
Memᴰ-append _ vs (Memᴰ.head e) = Memᴰ.head e
Memᴰ-append _ vs (Memᴰ.tail {xs = xs} m) = Memᴰ.tail (Memᴰ-append xs vs m)

-- The waker is still registered, or was woken.
abbrev IsKept : Waker → Run → Type 0
IsKept w r = (r.channel.waker ≡ some w) ⊎ Memᴰ w r.woken

poll_recv-IsIdle : (v : Waker) (c : SniffChannel) → IsIdle c → (poll_recv v c).0 ≡ ok none
unfolding poll_recv poll_queue poll_empty
poll_recv-IsIdle v c h = rw (h.0, h.1, h.2) refl

push-IsKept :
    (w : Waker) (chunk : Chunk) (room : Bool) (c : SniffChannel) (woken : List Waker)
    → c.waker ≡ some w
    → ((push chunk room c).0.waker ≡ some w) ⊎ Memᴰ w (woken ++ woken_by (push chunk room c).1)
unfolding push wake count_dropped
push-IsKept w chunk true c woken h = rw h (inr (Memᴰ-last w woken))
push-IsKept w chunk false c woken h = inl h

step-IsKept :
    (w : Waker) (e : ChannelEvent) (r : Run)
    → IsProducer e
    → IsRun r
    → r.channel.waker ≡ some w
    → IsKept w (step e r)
unfolding step send send_error close set_capacity wake
step-IsKept w (sent chunk) r p h e =
    let c = r.channel in
    let made = make_room-IsRoom (length chunk) c.queue c h.counted in
    push-IsKept w chunk (make_room (length chunk) c.queue c).0
      (make_room (length chunk) c.queue c).1 r.woken (made.waker_kept ∙ e)
step-IsKept w (failed x) r p h e = rw e (inr (Memᴰ-last w r.woken))
step-IsKept w (resized n) r p h e =
    let before : SniffChannel = record r.channel { capacity = n } in
    let made = make_room-IsRoom 0 r.channel.queue before h.counted in inl (made.waker_kept ∙ e)
step-IsKept w shut r p h e = rw e (inr (Memᴰ-last w r.woken))
step-IsKept w (polled v) r p h e = absurd p

step-woken : (w : Waker) (e : ChannelEvent) (r : Run) → Memᴰ w r.woken → Memᴰ w (step e r).woken
unfolding step
step-woken w (sent chunk) r m = Memᴰ-append r.woken _ m
step-woken w (failed x) r m = Memᴰ-append r.woken _ m
step-woken w (resized n) r m = m
step-woken w shut r m = Memᴰ-append r.woken _ m
step-woken w (polled v) r m = m

run-woken :
    (w : Waker) (es : List ChannelEvent) (r : Run) → Memᴰ w r.woken → Memᴰ w (run es r).woken
unfolding run
run-woken w [] r m = m
run-woken w (e ∷ es) r m = run-woken w es (step e r) (step-woken w e r m)

waits :
    (w v : Waker) (es : List ChannelEvent) (r : Run)
    → All IsProducer es
    → IsRun r
    → r.channel.waker ≡ some w
    → Memᴰ w (run es r).woken ⊎ ((poll_recv v (run es r).channel).0 ≡ ok none)
unfolding run
waits w v [] r p h e = inr (poll_recv-IsIdle v r.channel (h.parked w e))
waits w v (x ∷ es) r p h e = elim (step-IsKept w x r p.0 h e) [
  | inl kept ↦ waits w v es (step x r) p.1 (step-IsRun x r h) kept
  | inr woken ↦ inl (run-woken w es (step x r) woken)
]

-- A consumer of a channel that keeps the channel's invariant polled and has to wait: its waker is
-- registered, and the list of those woken, counted from then on, is empty. Whatever the others then do to
-- the channel, one after the other: the consumer is woken, or it has missed nothing, since polling again
-- would make it wait again.
pub woken_or_idle :
    (w v : Waker) (es : List ChannelEvent) (r : Run)
    → All IsProducer es
    → IsRun r
    → r.woken ≡ []
    → r.channel.waker ≡ some w
    → Memᴰ w (run es r).woken ⊎ ((poll_recv v (run es r).channel).0 ≡ ok none)
woken_or_idle w v es r p h none_yet e = waits w v es r p h e

-- A waiting consumer is woken by a chunk that fits, by an error and by closing, and then sees it.
pub wakes :
    (w v : Waker) (r : Run) (chunk : Chunk) (e : IoError)
    → IsRun r
    → r.channel.waker ≡ some w
    → length chunk ≤ r.channel.capacity
    → let sent_to = send chunk r.channel in
      let failed_to = send_error e r.channel in
      let closed_to = close r.channel in
      (sent_to.1 ≡ some w)
      × ((poll_recv v sent_to.0).0 ≡ ok (some chunk))
      × (failed_to.1 ≡ some w)
      × ((poll_recv v failed_to.0).0 ≡ err e)
      × (closed_to.1 ≡ some w)
      × ((poll_recv v closed_to.0).0 ≡ err eof)
unfolding send push send_error close wake poll_recv poll_queue poll_empty make_room
wakes w v r chunk e h registered fits =
    let idle = h.parked w registered in
    let none_queued : r.channel.total_bytes ≡ 0 = h.counted ∙ ap size idle.0 in
    let room : ltb r.channel.capacity (r.channel.total_bytes + length chunk) ≡ false =
      ground arith in
    rw (idle.0, idle.1, idle.2, registered, room) (refl, refl, refl, refl, refl, refl)
