-- ===== src/Ascii/Serve.antt =====
-- src/transport/ascii.rs: the server's loop over any events: each round ends, leaves no frame
-- behind, and keeps the store in shape.
use oms_modbus.Base.{
  ℕ, zero, suc, ◌<◌, ◌≡◌, ◌≢◌, refl, List, [], ◌∷◌, ◌++◌, some, length, drop, All, ◌⊎◌, inl, inr,
  arith, length-drop, All-append, All-drop,
}
use oms_modbus.Frame.Wire.{IsByte}
use oms_modbus.Server.Process.{process_server_request}
use oms_modbus.Server.Laws.{store_service, process_server_request-IsStore}
use oms_modbus.Store.Memory.{SlaveStore}
use oms_modbus.Store.Service.{IsStore}
use oms_modbus.Ascii.{find_crlf, ScanResult, found, incomplete, stuck, scan, try_parse_ascii}
use oms_modbus.Ascii.Scan.{try_parse_ascii-ne-stuck}
use oms_modbus.Ascii.Found.{IsFound, scan-IsFound}
use oms_modbus.Ascii.Server.{
  ascii_frames, AsciiServer, line_loop, AsciiEvent, bytes_read, read_timeout, ascii_event,
  ascii_events,
}

parse-IsFound :
    (buf : List ℕ) (slave consumed : ℕ) (pdu : List ℕ)
    → try_parse_ascii buf ≡ found slave pdu consumed
    → IsFound 0 buf pdu consumed
unfolding try_parse_ascii
parse-IsFound buf slave consumed pdu =
    scan-IsFound (suc (length buf)) 0 buf slave consumed pdu (omega arith)

ScanResult-cases :
    (r : ScanResult)
    → r ≢ stuck
    → (r ≡ incomplete) ⊎ ((slave : ℕ) × (pdu : List ℕ) × (n : ℕ) × (r ≡ found slave pdu n))
ScanResult-cases incomplete h = inl refl
ScanResult-cases stuck h = absurd (h refl)
ScanResult-cases (found slave pdu n) h = inr (slave, pdu, n, refl)

-- The server between two events of a `SlaveStore`'s transport: bytes without a frame, before a store
-- in shape.
pub record IsAsciiServing (server : AsciiServer SlaveStore) : Type 0 where
  pub settled : try_parse_ascii server.buffer ≡ incomplete
  pub bytes : All IsByte server.buffer
  pub store : IsStore server.service_state

pub line_loop-none :
    (n : ℕ) (server : AsciiServer SlaveStore)
    → try_parse_ascii server.buffer ≡ incomplete
    → line_loop (suc n) store_service server ≡ some ([], server)
unfolding line_loop
line_loop-none n server e = rw (line_loop, e) refl

-- The server when a frame was answered and used up.
abbrev pub after_line : ℕ → List ℕ → ℕ → AsciiServer SlaveStore → AsciiServer SlaveStore
after_line slave pdu n server = record {
  buffer = drop n server.buffer;
  service_state = (process_server_request pdu slave store_service server.service_state).1;
}

abbrev pub line_answer : ℕ → List ℕ → AsciiServer SlaveStore → List (List ℕ)
line_answer slave pdu server =
    ascii_frames (process_server_request pdu slave store_service server.service_state).0

pub line_loop-found :
    (fuel slave n : ℕ) (pdu : List ℕ) (server after : AsciiServer SlaveStore) (sent : List (List ℕ))
    → try_parse_ascii server.buffer ≡ found slave pdu n
    → line_loop fuel store_service (after_line slave pdu n server) ≡ some (sent, after)
    → line_loop (suc fuel) store_service server ≡ some (line_answer slave pdu server ++ sent, after)
unfolding line_loop
line_loop-found fuel slave n pdu server after sent e k = rw (line_loop, e, k) refl

line_loop-IsAsciiServing :
    (fuel : ℕ) (server : AsciiServer SlaveStore)
    → length server.buffer < fuel
    → All IsByte server.buffer
    → IsStore server.service_state
    → (sent : List (List ℕ)) × (after : AsciiServer SlaveStore) × (line_loop fuel store_service
          server
        ≡ some (sent, after))
      × IsAsciiServing after
line_loop-IsAsciiServing zero server lt b h = absurd (omega arith)
line_loop-IsAsciiServing (suc fuel) server lt b h =
    elim (ScanResult-cases (try_parse_ascii server.buffer)
      (try_parse_ascii-ne-stuck server.buffer)) [
        | inl e ↦
            ([], server, line_loop-none fuel server e, record { settled = e; bytes = b; store = h })
        | inr (slave, pdu, n, e) ↦
            let frame = parse-IsFound server.buffer slave n pdu e in
            let (sent, after, run, good) =
              line_loop-IsAsciiServing fuel (after_line slave pdu n server)
                (omega (arith, length-drop n server.buffer, frame.some_bytes, frame.there))
                (All-drop IsByte n server.buffer b)
                (process_server_request-IsStore pdu slave server.service_state frame.bytes h) in
            (
              line_answer slave pdu server ++ sent,
              after,
              line_loop-found fuel slave n pdu server after sent e run,
              good,
            )
      ]

abbrev pub IsByteRead : AsciiEvent → Type 0
IsByteRead (bytes_read chunk) = All IsByte chunk
IsByteRead read_timeout = Unit {0}

pub nothing_found : try_parse_ascii [] ≡ incomplete
unfolding try_parse_ascii scan find_crlf
nothing_found = refl

ascii_event-IsAsciiServing :
    (event : AsciiEvent) (server : AsciiServer SlaveStore)
    → IsByteRead event
    → IsAsciiServing server
    → (sent : List (List ℕ)) × (after : AsciiServer SlaveStore) × (ascii_event store_service event
          server
        ≡ some (sent, after))
      × IsAsciiServing after
unfolding ascii_event
ascii_event-IsAsciiServing (bytes_read chunk) server b h =
    line_loop-IsAsciiServing (suc (length (server.buffer ++ chunk)))
      (record server { buffer = server.buffer ++ chunk }) (omega arith)
      (All-append IsByte server.buffer chunk h.bytes b) h.store
ascii_event-IsAsciiServing read_timeout server b h = (
  [],
  record server { buffer = [] },
  refl,
  record { settled = nothing_found; bytes = tt; store = h.store },
)

-- Whatever bytes and timeouts the transport yields to an ASCII server that holds bytes without a frame,
-- before a `SlaveStore` in shape: each round ends, no frame is left in the buffer, and the store stays in
-- shape.
pub ascii_events-IsAsciiServing :
    (events : List AsciiEvent) (server : AsciiServer SlaveStore)
    → All IsByteRead events
    → IsAsciiServing server
    → (sent : List (List ℕ)) × (after : AsciiServer SlaveStore) × (ascii_events store_service events
          server
        ≡ some (sent, after))
      × IsAsciiServing after
unfolding ascii_events
ascii_events-IsAsciiServing [] server b h = ([], server, refl, h)
ascii_events-IsAsciiServing (event ∷ events) server b h =
    let (sent, next, run, ok_next) = ascii_event-IsAsciiServing event server b.0 h in
    let (later, after, rest, ok_after) = ascii_events-IsAsciiServing events next b.1 ok_next in
    (sent ++ later, after, rw (ascii_events, run, rest) refl, ok_after)
