-- ===== src/Sniff/Order.antt =====
-- src/transport/sniff_io.rs: every operation of either end keeps the invariant of the channel.
use oms_modbus.Base.{
  ℕ, ◌+◌, ◌≤◌, ◌≡◌, refl, sym, ap, ◌∙◌, subst, Bool, true, false, Option, none, some, List, [], ◌∷◌,
  ◌++◌, length, arith, Bool-cases, inl, inr, append-nil, append_assoc, length-append,
}
use oms_modbus.Sniff.Channel.{
  Chunk, Waker, IoError, SniffChannel, new, make_room, count_dropped, push, send, send_error,
  set_capacity, close, wake, poll_empty, poll_queue, poll_recv,
}
use oms_modbus.Sniff.Merge.{Merge, nil, Merge-append, Merge-left_all, Merge-right_all}
use oms_modbus.Sniff.Bounds.{size, size-append, IsCounter, IsRoom, make_room-IsRoom}
use oms_modbus.Sniff.Trace.{
  ChannelEvent, sent, failed, resized, shut, polled, Run, chunk_of, step, run, start, IsIdle,
  IsChannel,
}

module _ (sent_chunks delivered : List Chunk) where
  -- Chunks from the front of the queue are dropped.
  lose :
      (c c' : SniffChannel) (evicted : List Chunk)
      → IsChannel sent_chunks delivered c
      → c.queue ≡ evicted ++ c'.queue
      → c'.total_bytes ≡ size c'.queue
      → c'.total_bytes ≤ c'.capacity
      → ((n m : ℕ) → IsCounter n m c → IsCounter (n + length evicted) (m + size evicted) c')
      → ((w : Waker) → c'.waker ≡ some w → IsIdle c')
      → IsChannel sent_chunks delivered c'
  lose c c' evicted h split counted bounded counter parked = record {
    lost = h.lost ++ evicted;
    gone = h.gone ++ evicted;
    order =
        subst (λ l. Merge l (h.lost ++ evicted) (h.gone ++ evicted)) (append-nil delivered)
          (Merge-append h.order (Merge-right_all evicted));
    whole = h.whole ∙ ap (λ l. h.gone ++ l) split ∙ sym (append_assoc h.gone evicted c'.queue);
    counted = counted;
    bounded = bounded;
    counter =
        rw (length-append h.lost evicted, size-append h.lost evicted)
          (counter (length h.lost) (size h.lost) h.counter);
    parked = parked;
  }

  nil_of_append : (xs ys : List Chunk) → [] ≡ xs ++ ys → ys ≡ []
  nil_of_append [] ys h = sym h
  nil_of_append (x ∷ xs) ys h = cc

  -- Making room leaves nothing to tell a waiting consumer.
  room-parked :
      (extra : ℕ) (before : SniffChannel) (room : Bool) (c' : SniffChannel)
      → IsRoom extra before.queue before room c'
      → ((w : Waker) → before.waker ≡ some w → IsIdle before)
      → (w : Waker) → c'.waker ≡ some w
      → IsIdle c'
  room-parked extra before room c' made parked w e =
      let idle = parked w (sym made.waker_kept ∙ e) in
      (
        nil_of_append made.evicted c'.queue (sym idle.0 ∙ made.split),
        made.error_kept ∙ idle.1,
        made.closed_kept ∙ idle.2,
      )

  pub set_capacity-IsChannel :
      (n : ℕ) (c : SniffChannel)
      → IsChannel sent_chunks delivered c
      → IsChannel sent_chunks delivered (set_capacity n c)
  unfolding set_capacity
  set_capacity-IsChannel n c h =
      let before : SniffChannel = record c { capacity = n } in
      let made = make_room-IsRoom 0 c.queue before h.counted in
      let c' = (make_room 0 c.queue before).1 in
      lose c c' made.evicted h made.split made.counted
        (elim (Bool-cases (make_room 0 c.queue before).0) [
          | inl e ↦ omega (arith, made.fits e, made.capacity_kept)
          | inr e ↦ absurd (omega (arith, (made.full e).1))
        ])
        (λ k m counter.
          made.counter k m (record { chunks = counter.chunks; bytes = counter.bytes }))
        (room-parked 0 before _ c' made h.parked)

  -- The chunk is queued.
  push-true-IsChannel :
      (chunk : Chunk) (c : SniffChannel)
      → c.total_bytes + length chunk ≤ c.capacity
      → IsChannel sent_chunks delivered c
      → IsChannel (sent_chunks ++ (chunk ∷ [])) delivered (push chunk true c).0
  unfolding push wake
  push-true-IsChannel chunk c fits h = record {
    lost = h.lost;
    gone = h.gone;
    order = h.order;
    whole = ap (λ l. l ++ (chunk ∷ [])) h.whole ∙ append_assoc h.gone c.queue (chunk ∷ []);
    counted = omega (arith, h.counted, size-append c.queue (chunk ∷ []));
    bounded = fits;
    counter = record { chunks = h.counter.chunks; bytes = h.counter.bytes };
    parked = λ w e. absurd (cc);
  }

  -- The chunk is dropped.
  push-false-IsChannel :
      (chunk : Chunk) (c : SniffChannel)
      → c.queue ≡ []
      → IsChannel sent_chunks delivered c
      → IsChannel (sent_chunks ++ (chunk ∷ [])) delivered (push chunk false c).0
  unfolding push count_dropped
  push-false-IsChannel chunk c empty h = record {
    lost = h.lost ++ (chunk ∷ []);
    gone = h.gone ++ (chunk ∷ []);
    order =
        subst (λ l. Merge l (h.lost ++ (chunk ∷ [])) (h.gone ++ (chunk ∷ [])))
          (append-nil delivered) (Merge-append h.order (Merge-right_all (chunk ∷ [])));
    whole =
        ap (λ l. l ++ (chunk ∷ [])) (h.whole ∙ ap (λ l. h.gone ++ l) empty ∙ append-nil h.gone)
        ∙ sym (append-nil (h.gone ++ (chunk ∷ [])))
        ∙ ap (λ l. (h.gone ++ (chunk ∷ [])) ++ l) (sym empty);
    counted = h.counted;
    bounded = h.bounded;
    counter =
        rw (length-append h.lost (chunk ∷ []), size-append h.lost (chunk ∷ []))
          (record {
            chunks = omega (arith, h.counter.chunks);
            bytes = omega (arith, h.counter.bytes);
          });
    parked = h.parked;
  }

  pub send-IsChannel :
      (chunk : Chunk) (c : SniffChannel)
      → IsChannel sent_chunks delivered c
      → IsChannel (sent_chunks ++ (chunk ∷ [])) delivered (send chunk c).0
  unfolding send
  send-IsChannel chunk c h =
      let made = make_room-IsRoom (length chunk) c.queue c h.counted in
      let c' = (make_room (length chunk) c.queue c).1 in
      let parked = room-parked (length chunk) c _ c' made h.parked in
      elim (Bool-cases (make_room (length chunk) c.queue c).0) [
        | inl e ↦ rw e (
            push-true-IsChannel chunk c' (omega (arith, made.fits e, made.capacity_kept)) (
              lose c c' made.evicted h made.split made.counted
                (omega (arith, made.fits e, made.capacity_kept)) made.counter parked))
        | inr e ↦ rw e (
            push-false-IsChannel chunk c' (made.full e).0 (
              lose c c' made.evicted h made.split made.counted
                (omega (arith, made.counted, ap size (made.full e).0)) made.counter parked))
      ]

  -- An operation that changes the flags alone keeps the rest.
  pub flags-IsChannel :
      (c : SniffChannel) (closed : Bool) (error : Option IoError) (waker : Option Waker)
      → IsChannel sent_chunks delivered c
      → ((w : Waker) → waker ≡ some w → (c.queue ≡ []) × (error ≡ none) × (closed ≡ false))
      → IsChannel sent_chunks delivered (record c { closed = closed; error = error; waker = waker })
  flags-IsChannel c closed error waker h parked = record {
    lost = h.lost;
    gone = h.gone;
    order = h.order;
    whole = h.whole;
    counted = h.counted;
    bounded = h.bounded;
    counter = record { chunks = h.counter.chunks; bytes = h.counter.bytes };
    parked = parked;
  }

  poll_empty-IsChannel :
      (w : Waker) (error : Option IoError) (closed : Bool) (c : SniffChannel)
      → c.error ≡ error
      → c.closed ≡ closed
      → c.queue ≡ []
      → IsChannel sent_chunks delivered c
      → IsChannel sent_chunks (delivered ++ chunk_of (poll_empty w c).0) (poll_empty w c).1
  unfolding poll_empty
  poll_empty-IsChannel w (some e) closed c he hc hq h =
      rw (he, append-nil delivered)
        (flags-IsChannel c c.closed none c.waker h (λ v e. absurd (cc ((h.parked v e).1))))
  poll_empty-IsChannel w none true c he hc hq h =
      rw (he, hc, append-nil delivered)
        (flags-IsChannel c true none c.waker h (λ v e. absurd (cc ((h.parked v e).2))))
  poll_empty-IsChannel w none false c he hc hq h =
      rw (he, hc, append-nil delivered)
        (flags-IsChannel c false none (some w) h (λ v e. (hq, refl, refl)))

  poll_queue-IsChannel :
      (w : Waker) (q : List Chunk) (c : SniffChannel)
      → c.queue ≡ q
      → IsChannel sent_chunks delivered c
      → IsChannel sent_chunks (delivered ++ chunk_of (poll_queue w q c).0) (poll_queue w q c).1
  unfolding poll_queue
  poll_queue-IsChannel w [] c hq h = poll_empty-IsChannel w c.error c.closed c refl refl hq h
  poll_queue-IsChannel w (chunk ∷ rest) c hq h = record {
    lost = h.lost;
    gone = h.gone ++ (chunk ∷ []);
    order =
        subst (λ l. Merge (delivered ++ (chunk ∷ [])) l (h.gone ++ (chunk ∷ [])))
          (append-nil h.lost) (Merge-append h.order (Merge-left_all (chunk ∷ [])));
    whole = h.whole ∙ ap (λ l. h.gone ++ l) hq ∙ sym (append_assoc h.gone (chunk ∷ []) rest);
    counted = omega (arith, h.counted, ap size hq);
    bounded = omega (arith, h.bounded);
    counter = record { chunks = h.counter.chunks; bytes = h.counter.bytes };
    parked = λ v e. absurd (cc ((h.parked v e).0));
  }

  -- The consumer takes the oldest chunk, or what else there is to see.
  pub poll_recv-IsChannel :
      (w : Waker) (c : SniffChannel)
      → IsChannel sent_chunks delivered c
      → IsChannel sent_chunks (delivered ++ chunk_of (poll_recv w c).0) (poll_recv w c).1
  unfolding poll_recv
  poll_recv-IsChannel w c h = poll_queue-IsChannel w c.queue c refl h

abbrev pub IsRun : Run → Type 0
IsRun r = IsChannel r.sent_chunks r.delivered r.channel

pub step-IsRun : (e : ChannelEvent) (r : Run) → IsRun r → IsRun (step e r)
unfolding step send_error close wake
step-IsRun (sent chunk) r h = send-IsChannel _ _ chunk r.channel h
step-IsRun (failed e) r h =
    flags-IsChannel _ _ r.channel r.channel.closed (some e) none h (λ w e. absurd (cc))
step-IsRun (resized n) r h = set_capacity-IsChannel _ _ n r.channel h
step-IsRun shut r h = flags-IsChannel _ _ r.channel true r.channel.error none h (λ w e. absurd (cc))
step-IsRun (polled w) r h = poll_recv-IsChannel _ _ w r.channel h

pub start-IsRun : (capacity : ℕ) → IsRun (start capacity)
unfolding start new
start-IsRun capacity = record {
  lost = [];
  gone = [];
  order = nil;
  whole = refl;
  counted = refl;
  bounded = omega arith;
  counter = record { chunks = refl; bytes = refl };
  parked = λ w e. absurd (cc);
}

pub run-IsRun : (es : List ChannelEvent) (r : Run) → IsRun r → IsRun (run es r)
unfolding run
run-IsRun [] r h = h
run-IsRun (e ∷ es) r h = run-IsRun es (step e r) (step-IsRun e r h)

-- Whatever the two ends do to a new channel, in any order: the chunks that left it, delivered or dropped,
-- followed by its queue are the chunks that were sent, in the order of sending; its drop counters, in 64
-- bits, are the number and the bytes of the dropped ones; `total_bytes` is the size of the queue and
-- within the capacity; and while the waker of a consumer is registered, there is no chunk, error or end
-- for it to see.
pub start-IsChannel :
    (capacity : ℕ) (es : List ChannelEvent)
    → let r = run es (start capacity) in IsChannel r.sent_chunks r.delivered r.channel
start-IsChannel capacity es = run-IsRun es (start capacity) (start-IsRun capacity)
