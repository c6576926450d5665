-- ===== src/Tcp/Serve.antt =====
-- src/transport/tcp.rs: the loop over a connection's bytes: it ends, keeps the store in shape, and
-- leaves a bounded buffer with a sound header.
use oms_modbus.Base.{
  ℕ, zero, suc, ◌+◌, ◌-◌, ◌≤◌, ◌<◌, ◌≡◌, ◌≢◌, refl, subst, Bool, true, false, not, ◌&&◌, ◌||◌, List,
  [], ◌++◌, Option, none, some, is_ok, length, drop, get_or, All,
}
use oms_modbus.Base.{
  arith, ltb, leb, ◌==◌, if◌then◌else◌, Option-cases, inl, inr, length-drop, All-append, All-take,
  All-drop,
}
use oms_modbus.Frame.Types.{is_known_function_code}
use oms_modbus.Frame.Wire.{IsByte}
use oms_modbus.Frame.Decode.{request_of_bytes}
use oms_modbus.Server.Process.{process_server_request}
use oms_modbus.Server.Laws.{store_service, process_server_request-IsStore}
use oms_modbus.Store.Memory.{SlaveStore}
use oms_modbus.Store.Service.{IsStore}
use oms_modbus.Tcp.{
  TcpConfig, TcpConnection, tcp_frames, frame_loop, discard, serve_chunk, u16_at, tcp_body,
  is_complete, is_tcp_header_corrupt, try_extract_tcp_pdu, try_parse_tcp_frame, max_tcp_adu_size,
  max_tcp_buf_bytes, mbap_header_size, mbap_prefix_size,
}

-- What both branches have, the conditional has.
branches {ℓ κ} :
    {A : Type ℓ} (P : A → Type κ) (b : Bool) (x y : A)
    → (b ≡ true → P x)
    → (b ≡ false → P y)
    → P (if b then x else y)
branches P true x y h k = h refl
branches P false x y h k = k refl

abbrev Parsed : Type 0
Parsed = ℕ × (ℕ × (List ℕ × ℕ))

abbrev pdu_of : Parsed → List ℕ
pdu_of (tid, (unit_id, (pdu, n))) = pdu

abbrev consumed_of : Parsed → ℕ
consumed_of (tid, (unit_id, (pdu, n))) = n

some_injective : (a b : Parsed) → some a ≡ some b → a ≡ b
some_injective a b e = cc

none-ne-some : {r : Parsed} → none ≢ some r
none-ne-some e = cc

-- A PDU that was extracted consists of bytes, and the frame length is passed through.
abbrev IsPart : List ℕ → ℕ → Parsed → Type 0
IsPart body n r = (All IsByte body → All IsByte (pdu_of r)) × (consumed_of r ≡ n)

abbrev Parts : List ℕ → ℕ → Option Parsed → Type 0
Parts body n o = (r : Parsed) → o ≡ some r → IsPart body n r

extract-IsPart :
    (tid unit_id : ℕ) (body : List ℕ) (n : ℕ)
    → Parts body n (try_extract_tcp_pdu tid unit_id body n)
unfolding try_extract_tcp_pdu
extract-IsPart tid unit_id body n =
    let repeated =
      leb 2 (length body)
      && (get_or body 0 0 == unit_id
          && (is_known_function_code (get_or body 1 0)
              && is_ok (request_of_bytes (drop 1 body)))) in
    let inner : Parsed = (tid, (get_or body 0 0, (drop 1 body, n))) in
    let whole : Parsed = (tid, (unit_id, (body, n))) in
    let doubtful = get_or body 0 0 == unit_id && not (is_ok (request_of_bytes body)) in
    let known = is_known_function_code (get_or body 0 0) in
    branches (Parts body n) repeated (some inner)
      (if known then if doubtful then none else some whole else none)
      (λ b r e. subst (IsPart body n) (some_injective inner r e) (All-drop IsByte 1 body, refl))
      (λ b.
        branches (Parts body n) known (if doubtful then none else some whole) none
          (λ c.
            branches (Parts body n) doubtful none (some whole) (λ d r e. absurd (none-ne-some e))
              (λ d r e. subst (IsPart body n) (some_injective whole r e) (λ h. h, refl)))
          (λ c r e. absurd (none-ne-some e)))

-- A frame that was parsed takes at least eight bytes and no more than there are.
pub record IsTaken (buf : List ℕ) (r : Parsed) : Type 0 where
  pub some_bytes : 8 ≤ consumed_of r
  pub there : consumed_of r ≤ length buf
  pub bytes : All IsByte buf → All IsByte (pdu_of r)

taken :
    (buf : List ℕ) (fl : ℕ) (r : Parsed)
    → is_complete buf fl ≡ true
    → IsPart (tcp_body buf fl) fl r
    → IsTaken buf r
taken buf fl r c part = record {
  some_bytes = ground (arith, part.1);
  there = ground (arith, part.1);
  bytes = λ h. part.0 (All-take IsByte (fl - 7) (drop 7 buf) (All-drop IsByte 7 buf h));
}

abbrev Taken : List ℕ → Option Parsed → Type 0
Taken buf o = (r : Parsed) → o ≡ some r → IsTaken buf r

parse-IsTaken : (buf : List ℕ) → Taken buf (try_parse_tcp_frame buf)
unfolding try_parse_tcp_frame
parse-IsTaken buf =
    let long = mbap_header_size + u16_at buf 4 in
    let short = mbap_prefix_size + u16_at buf 4 in
    let bad = not (u16_at buf 2 == 0) || ltb max_tcp_adu_size (u16_at buf 4) in
    let part : ℕ → Option Parsed =
      λ fl. try_extract_tcp_pdu (u16_at buf 0) (get_or buf 6 0) (tcp_body buf fl) fl in
    let second = if is_complete buf short then part short else none in
    let either = if is_complete buf long then part long else second in
    let both : (fl : ℕ) → is_complete buf fl ≡ true → Taken buf (part fl) = λ fl c r e.
      taken buf fl r c (extract-IsPart (u16_at buf 0) (get_or buf 6 0) (tcp_body buf fl) fl r e) in
    branches (Taken buf) (ltb (length buf) mbap_header_size) none (if bad then none else either)
      (λ a r e. absurd (none-ne-some e))
      (λ a.
        branches (Taken buf) bad none either (λ b r e. absurd (none-ne-some e))
          (λ b. branches (Taken buf) (is_complete buf long) (part long) second (both long) (λ c.
            branches (Taken buf) (is_complete buf short) (part short) none (both short)
              (λ d r e. absurd (none-ne-some e)))))

module _ (config : TcpConfig) where
  loop-none :
      (n : ℕ) (conn : TcpConnection SlaveStore)
      → try_parse_tcp_frame conn.buffer ≡ none
      → frame_loop (suc n) config store_service conn ≡ some ([], conn)
  unfolding frame_loop
  loop-none n conn e = rw (frame_loop, e) refl

  -- The connection when a frame was answered and used up.
  abbrev after_frame : Parsed → TcpConnection SlaveStore → TcpConnection SlaveStore
  after_frame (tid, (slave, (pdu, n))) conn = record {
    buffer = drop n conn.buffer;
    service_state = (process_server_request pdu slave store_service conn.service_state).1;
  }

  abbrev answers : Parsed → TcpConnection SlaveStore → List (List ℕ)
  answers (tid, (slave, (pdu, n))) conn =
      tcp_frames config tid (process_server_request pdu slave store_service conn.service_state).0

  loop-frame :
      (n : ℕ) (conn after : TcpConnection SlaveStore) (r : Parsed) (sent : List (List ℕ))
      → try_parse_tcp_frame conn.buffer ≡ some r
      → frame_loop n config store_service (after_frame r conn) ≡ some (sent, after)
      → frame_loop (suc n) config store_service conn ≡ some (answers r conn ++ sent, after)
  unfolding frame_loop
  loop-frame n conn after r sent e k = rw (frame_loop, e, k) refl

  loop-IsStore :
      (fuel : ℕ) (conn : TcpConnection SlaveStore)
      → length conn.buffer < fuel
      → All IsByte conn.buffer
      → IsStore conn.service_state
      → (sent : List (List ℕ)) × (after : TcpConnection SlaveStore) × (frame_loop fuel config
            store_service conn
          ≡ some (sent, after))
        × (try_parse_tcp_frame after.buffer ≡ none)
        × All IsByte after.buffer
        × IsStore after.service_state
  loop-IsStore zero conn lt b h = absurd (omega arith)
  loop-IsStore (suc fuel) conn lt b h = elim (Option-cases (try_parse_tcp_frame conn.buffer)) [
    | inl e ↦ ([], conn, loop-none fuel conn e, e, b, h)
    | inr (r, e) ↦
        let part = parse-IsTaken conn.buffer r e in
        let (sent, after, run, parsed, bytes, store) =
          loop-IsStore fuel (after_frame r conn)
            (omega (arith, length-drop (consumed_of r) conn.buffer, part.some_bytes, part.there))
            (All-drop IsByte (consumed_of r) conn.buffer b)
            (process_server_request-IsStore (pdu_of r) r.1.0 conn.service_state (part.bytes b) h) in
        (
          answers r conn ++ sent,
          after,
          loop-frame fuel conn after r sent e run,
          parsed,
          bytes,
          store,
        )
  ]

-- A connection between two reads: bytes, few of them, with a header that is not corrupt, before a
-- store in shape.
pub record IsConnection (conn : TcpConnection SlaveStore) : Type 0 where
  pub bytes : All IsByte conn.buffer
  pub bounded : length conn.buffer ≤ max_tcp_buf_bytes
  pub header : is_tcp_header_corrupt conn.buffer ≡ false
  pub store : IsStore conn.service_state

or_false : (a b : Bool) → (a || b) ≡ false → (a ≡ false) × (b ≡ false)
or_false a b h = (ground arith, ground arith)

no_header : is_tcp_header_corrupt [] ≡ false
unfolding is_tcp_header_corrupt
no_header = refl

discard-IsConnection :
    (conn : TcpConnection SlaveStore)
    → All IsByte conn.buffer
    → IsStore conn.service_state
    → IsConnection (discard conn)
unfolding discard
discard-IsConnection conn b h =
    branches IsConnection
      (is_tcp_header_corrupt conn.buffer || ltb max_tcp_buf_bytes (length conn.buffer))
      (record conn { buffer = [] }) conn
      (λ e. record { bytes = tt; bounded = omega arith; header = no_header; store = h })
      (λ e.
        let (sound, few) = or_false _ _ e in
        record { bytes = b; bounded = ground (arith, few); header = sound; store = h })

-- Whatever bytes a read yields to a connection, which keeps at most 1040 bytes with a header that
-- is not corrupt before a `SlaveStore` in shape: the loop over the frames ends, and the
-- connection afterwards is one again.
pub serve_chunk-IsConnection :
    (config : TcpConfig) (chunk : List ℕ) (conn : TcpConnection SlaveStore)
    → All IsByte chunk
    → IsConnection conn
    → (sent : List (List ℕ)) × (after : TcpConnection SlaveStore) × (serve_chunk config
          store_service chunk conn
        ≡ some (sent, after))
      × IsConnection after
unfolding serve_chunk
serve_chunk-IsConnection config chunk conn b h =
    let buf = conn.buffer ++ chunk in
    let (sent, after, run, parsed, bytes, store) =
      loop-IsStore config (suc (length buf)) (record conn { buffer = buf }) (omega arith)
        (All-append IsByte conn.buffer chunk h.bytes b) h.store in
    (sent, discard after, rw (serve_chunk, run) refl, discard-IsConnection after bytes store)
