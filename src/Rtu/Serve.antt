-- ===== src/Rtu/Serve.antt =====
-- src/transport/rtu.rs: the server's loop over any events: it ends each round, leaves nothing that
-- parses behind, and keeps the store in shape.
use oms_modbus.Base.{
  ℕ, suc, ◌-◌, ◌≤◌, ◌≡◌, refl, ap, ◌∙◌, true, List, [], ◌∷◌, ◌++◌, none, some, length, take, drop,
  get_or, All,
}
use oms_modbus.Base.{arith, ltb, ◌==◌, Bool-cases, ◌⊎◌, inl, inr, append-nil, All-append, All-take}
use oms_modbus.Frame.Types.{is_known_function_code}
use oms_modbus.Frame.Wire.{IsByte}
use oms_modbus.Codec.{calculate_crc}
use oms_modbus.Server.{Service}
use oms_modbus.Server.Process.{process_server_request}
use oms_modbus.Server.Laws.{store_service, process_server_request-IsStore}
use oms_modbus.Store.Memory.{SlaveStore}
use oms_modbus.Store.Service.{IsStore}
use oms_modbus.Rtu.{
  min_rtu_frame, crc_received, without_crc, try_parse_server_rtu, rtu_frames, RtuServer, parse_loop,
  Event, received, silence, serve_event, serve_events,
}

-- What an accepted buffer satisfies.
pub record IsFrame (buf : List ℕ) : Type 0 where
  pub long : min_rtu_frame ≤ length buf
  pub crc_matches : crc_received buf ≡ calculate_crc (without_crc buf)
  pub known : is_known_function_code (get_or (without_crc buf) 1 0) ≡ true

abbrev pub parts : List ℕ → ℕ × (List ℕ × ℕ)
parts buf = (get_or (without_crc buf) 0 0, (drop 1 (without_crc buf), length buf))

pub parse-cases :
    (buf : List ℕ)
    → (try_parse_server_rtu buf ≡ none)
      ⊎ (IsFrame buf × (try_parse_server_rtu buf ≡ some (parts buf)))
unfolding try_parse_server_rtu
parse-cases buf = elim (Bool-cases (ltb (length buf) 5)) [
  | inl a ↦ inl (rw a refl)
  | inr a ↦ elim (Bool-cases (crc_received buf == calculate_crc (without_crc buf))) [
    | inr b ↦ inl (rw (a, b) refl)
    | inl b ↦ elim (Bool-cases (ltb (length (without_crc buf)) 2)) [
      | inl c ↦ inl (rw (a, b, c) refl)
      | inr c ↦ elim (Bool-cases (is_known_function_code (get_or (without_crc buf) 1 0))) [
        | inr d ↦ inl (rw (a, b, c, d) refl)
        | inl d ↦ inr (
          record { long = ground arith; crc_matches = ground arith; known = d },
          rw (a, b, c, d) refl,
        )
      ]
    ]
  ]
]

parse_empty : try_parse_server_rtu [] ≡ none
unfolding try_parse_server_rtu
parse_empty = refl

drop_all : (xs : List ℕ) → drop (length xs) xs ≡ []
drop_all [] = refl
drop_all (x ∷ xs) = drop_all xs

module _ {S : Type 0} (service : Service S) where
  -- The server after a frame: its buffer is used up, its service was asked.
  abbrev pub after_frame : RtuServer S → RtuServer S
  after_frame server =
      let (slave, (pdu, n)) = parts server.buffer in
      record {
        buffer = [];
        service_state = (process_server_request pdu slave service server.service_state).1;
      }

  abbrev pub answers : RtuServer S → List (List ℕ)
  answers server =
      let (slave, (pdu, n)) = parts server.buffer in
      rtu_frames (process_server_request pdu slave service server.service_state).0

  loop-none :
      (n : ℕ) (server : RtuServer S)
      → try_parse_server_rtu server.buffer ≡ none
      → parse_loop (suc n) service server ≡ some ([], server)
  unfolding parse_loop
  loop-none n server e = rw (parse_loop, e) refl

  pub loop-frame :
      (n slave : ℕ) (pdu : List ℕ) (server : RtuServer S)
      → try_parse_server_rtu server.buffer ≡ some (slave, (pdu, length server.buffer))
      → parse_loop (suc (suc n)) service server
        ≡ some (
          rtu_frames (process_server_request pdu slave service server.service_state).0,
          record {
            buffer = [];
            service_state = (process_server_request pdu slave service server.service_state).1;
          },
        )
  unfolding parse_loop
  loop-frame n slave pdu server e =
      let (rsp, s') = process_server_request pdu slave service server.service_state in
      rw (parse_loop, e, drop_all server.buffer, parse_empty, append-nil (rtu_frames rsp))
        (ap (λ b. some (rtu_frames rsp, record { buffer = b; service_state = s' }))
          (drop_all server.buffer))

  -- One run of the loop, with the fuel that it is given: at most one frame, the whole buffer.
  pub loop-cases :
      (server : RtuServer S)
      → ((try_parse_server_rtu server.buffer ≡ none)
          × (parse_loop (suc (length server.buffer)) service server ≡ some ([], server)))
        ⊎ (IsFrame server.buffer
            × (parse_loop (suc (length server.buffer)) service server
                ≡ some (answers server, after_frame server)))
  loop-cases server = elim (parse-cases server.buffer) [
    | inl e ↦ inl (e, loop-none (length server.buffer) server e)
    | inr (good, e) ↦
        let size : length server.buffer ≡ suc (length server.buffer - 1) =
          omega (arith, good.long) in
        inr (
          good,
          ap (λ n. parse_loop (suc n) service server) size
              ∙ loop-frame (length server.buffer - 1) (get_or (without_crc server.buffer) 0 0)
                  (drop 1 (without_crc server.buffer)) server e,
        )
  ]

-- Nothing that parses is left in the buffer.
abbrev pub IsSettled : {S : Type 0} → RtuServer S → Type 0
IsSettled server = try_parse_server_rtu server.buffer ≡ none

-- Bytes of the transport.
abbrev pub IsByteEvent : Event → Type 0
IsByteEvent (received chunk) = All IsByte chunk
IsByteEvent silence = Unit {0}

-- The server between two events of a `SlaveStore`'s transport.
pub record IsServing (server : RtuServer SlaveStore) : Type 0 where
  pub settled : IsSettled server
  pub bytes : All IsByte server.buffer
  pub store : IsStore server.service_state

-- The silence empties a settled buffer and sends nothing.
silence-clears :
    {S : Type 0} (service : Service S) (server : RtuServer S)
    → IsSettled server
    → serve_event service silence server ≡ some ([], record server { buffer = [] })
unfolding serve_event
silence-clears service server h = rw (serve_event, h) refl

All-tail : (xs : List ℕ) → All IsByte xs → All IsByte (drop 1 xs)
All-tail [] h = tt
All-tail (x ∷ xs) h = h.1

pdu-IsByte : (buf : List ℕ) → All IsByte buf → All IsByte (drop 1 (without_crc buf))
unfolding without_crc
pdu-IsByte buf h = All-tail (take (length buf - 2) buf) (All-take IsByte (length buf - 2) buf h)

loop-IsServing :
    (server : RtuServer SlaveStore)
    → All IsByte server.buffer
    → IsStore server.service_state
    → (sent : List (List ℕ)) × (after : RtuServer SlaveStore) × (parse_loop
          (suc (length server.buffer))
          store_service
          server
        ≡ some (sent, after))
      × IsServing after
loop-IsServing server b h = elim (loop-cases store_service server) [
  | inl (e, run) ↦ ([], server, run, record { settled = e; bytes = b; store = h })
  | inr (good, run) ↦
      let (slave, (pdu, n)) = parts server.buffer in
      (
        answers store_service server,
        after_frame store_service server,
        run,
        record {
          settled = parse_empty;
          bytes = tt;
          store =
              process_server_request-IsStore pdu slave server.service_state
                (pdu-IsByte server.buffer b) h;
        },
      )
]

event-IsServing :
    (event : Event) (server : RtuServer SlaveStore)
    → IsByteEvent event
    → IsServing server
    → (sent : List (List ℕ)) × (after : RtuServer SlaveStore) × (serve_event store_service event
          server
        ≡ some (sent, after))
      × IsServing after
unfolding serve_event
event-IsServing (received chunk) server b h =
    loop-IsServing (record server { buffer = server.buffer ++ chunk })
      (All-append IsByte server.buffer chunk h.bytes b) h.store
event-IsServing silence server b h = (
  [],
  record server { buffer = [] },
  silence-clears store_service server h.settled,
  record { settled = parse_empty; bytes = tt; store = h.store },
)

-- Whatever bytes and silences the transport yields to a server that holds nothing that parses,
-- before a `SlaveStore` in shape: each round ends, nothing that parses stays in the buffer, and
-- the store stays in shape.
pub serve_events-IsServing :
    (events : List Event) (server : RtuServer SlaveStore)
    → All IsByteEvent events
    → IsServing server
    → (sent : List (List ℕ)) × (after : RtuServer SlaveStore) × (serve_events store_service events
          server
        ≡ some (sent, after))
      × IsServing after
unfolding serve_events
serve_events-IsServing [] server b h = ([], server, refl, h)
serve_events-IsServing (event ∷ events) server b h =
    let (sent, next, run, ok_next) = event-IsServing event server b.0 h in
    let (later, after, rest, ok_after) = serve_events-IsServing events next b.1 ok_next in
    (sent ++ later, after, rw (serve_events, run, rest) refl, ok_after)

parse_loop-IsSettled :
    {S : Type 0} (service : Service S) (server : RtuServer S)
    → (sent : List (List ℕ)) × (after : RtuServer S) × (parse_loop
          (suc (length server.buffer))
          service
          server
        ≡ some (sent, after))
      × IsSettled after
parse_loop-IsSettled service server = elim (loop-cases service server) [
  | inl (e, run) ↦ ([], server, run, e)
  | inr (good, run) ↦ (answers service server, after_frame service server, run, parse_empty)
]

-- Whatever the service, the buffer and the bytes that arrive: the silence that follows them sends nothing
-- more, leaves the service's state and empties the buffer, since what the loop left there never
-- parses.
pub serve_events-silence :
    {S : Type 0} (service : Service S) (chunk : List ℕ) (server : RtuServer S)
    → (sent : List (List ℕ)) × (after : RtuServer S) × (serve_event service (received chunk) server
        ≡ some (sent, after))
      × (serve_events service (received chunk ∷ silence ∷ []) server
          ≡ some (sent, record after { buffer = [] }))
unfolding serve_events
serve_events-silence service chunk server =
    let (sent, after, run, settled) =
      parse_loop-IsSettled service (record server { buffer = server.buffer ++ chunk }) in
    let arrived : serve_event service (received chunk) server ≡ some (sent, after) =
      unfold serve_event in run in
    let kept : (serve_events service (received chunk ∷ silence ∷ []) server
        ≡ some (sent ++ [], record after { buffer = [] })) =
      rw (serve_events, arrived, silence-clears service after settled) refl in
    (
      sent,
      after,
      arrived,
      kept ∙ ap (λ l. some (l, record after { buffer = [] })) (append-nil sent),
    )
