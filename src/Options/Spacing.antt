-- ===== src/Options/Spacing.antt =====
-- `with_options` of src/transport/rtu.rs and src/transport/ascii.rs: the spacing that the options ask for
-- is not kept.
use oms_modbus.Base.{
  ℕ, ◌≡◌, refl, ap, ◌∙◌, none, List, [], ◌∷◌, Result, ok, err, Bool-cases, inl, inr, ◌==◌, length,
  ◌++◌,
}
use oms_modbus.Sniff.Channel.{Chunk, Waker, IoError}
use oms_modbus.Sniff.Parts.{
  Poll, ready, pending, WireTap, AsyncStream, read_state, read_touch, write_state,
}
use oms_modbus.Sniff.Io.{SniffIo, open_io, poll_read, poll_write, write_done, prepare_send}
use oms_modbus.Options.{ClientOptions, client_with_timeout, serial_with_options}

-- A read into some room behind some bytes, or a write, at a time.
pub data Traffic : Type 0 where
  reading : Waker → ℕ → ℕ → Chunk → Traffic
  writing : ℕ → Chunk → Traffic

module _ {T S : Type 0} (ops : AsyncStream T) (tap_ops : WireTap S) where
  abbrev pub traffic : List Traffic → SniffIo T S → SniffIo T S
  traffic [] io = io
  traffic (reading w now room filled ∷ rest) io =
      traffic rest (poll_read ops w now room filled io).1
  traffic (writing now buf ∷ rest) io = traffic rest (poll_write ops tap_ops now buf io).1

  read_touch-none :
      (now : ℕ) (filled : Chunk) (result : Poll (Result Chunk IoError))
      → read_touch now filled result none ≡ none
  unfolding read_touch
  read_touch-none now filled (ready (ok bytes)) =
      elim (Bool-cases (length (filled ++ bytes) == 0)) [ inl e ↦ rw e refl | inr e ↦ rw e refl ]
  read_touch-none now filled (ready (err e)) = refl
  read_touch-none now filled pending = refl

  poll_read-none :
      (w : Waker) (now room : ℕ) (filled : Chunk) (io : SniffIo T S)
      → io.timing ≡ none
      → (poll_read ops w now room filled io).1.timing ≡ none
  unfolding poll_read
  poll_read-none w now room filled io h =
      ap (read_touch now filled (read_state ops w room io.state).0) h
      ∙ read_touch-none now filled (read_state ops w room io.state).0

  write_done-none :
      (now : ℕ) (buf : Chunk) (result : Poll (Result ℕ IoError)) (io : SniffIo T S)
      → io.timing ≡ none
      → (write_done tap_ops now buf result io).timing ≡ none
  unfolding write_done
  write_done-none now buf (ready (ok n)) io h = elim (Bool-cases (n == 0)) [
    | inl e ↦ rw e h
    | inr e ↦ rw (e, h) refl
  ]
  write_done-none now buf (ready (err e)) io h = h
  write_done-none now buf pending io h = h

  traffic-none :
      (given : List Traffic) (io : SniffIo T S)
      → io.timing ≡ none
      → (traffic given io).timing ≡ none
  unfolding poll_write
  traffic-none [] io h = h
  traffic-none (reading w now room filled ∷ rest) io h =
      traffic-none rest _ (poll_read-none w now room filled io h)
  traffic-none (writing now buf ∷ rest) io h = traffic-none rest _ (
      write_done-none now buf (write_state ops buf io.state).0
        (record io { state = (write_state ops buf io.state).1 }) h)

-- Whatever spacing the options ask for: after any reads and writes on the stream of an RTU or ASCII client
-- made by `with_options`, `prepare_send` asks for no wait, at any time.
pub serial_with_options-never_waits :
    {T S : Type 0} (ops : AsyncStream (SniffIo T S)) (tap_ops : WireTap S) (transport : T)
    (opts : ClientOptions S) (given : List Traffic) (now : ℕ)
    → prepare_send now (traffic ops tap_ops given (serial_with_options transport opts).stream) ≡ 0
unfolding prepare_send serial_with_options client_with_timeout open_io
serial_with_options-never_waits ops tap_ops transport opts given now =
    rw
      (
        prepare_send,
        traffic-none ops tap_ops given (serial_with_options transport opts).stream refl,
      )
      refl
