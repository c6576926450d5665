-- ===== src/Reconnect/Laws.antt =====
-- src/transport/send_recv.rs: the reconnect loop ends, and with what.
use oms_modbus.Base.{
  ℕ, zero, suc, ◌+◌, ◌-◌, ◌%◌, ◌^◌, ◌≤◌, ◌<◌, ◌≡◌, refl, false, not, ◌&&◌, some, Result, ok, err,
  if◌then◌else◌, ltb, leb,
}
use oms_modbus.Base.{arith, Bool-cases, Result-cases, inl, inr, ◌⊎◌}
use oms_modbus.Errors.{ModbusError, is_retryable}
use oms_modbus.Frame.Types.{Response}
use oms_modbus.Reconnect.{ReconnectConfig, Transport, reconnect_loop, run_with_reconnect}

-- What the loop may end with: a response, an error that no new connection mends, or the error of
-- the loop itself.
abbrev pub IsOutcome : {W : Type 0} → Transport W → Result Response ModbusError → Type 0
IsOutcome transport (ok rsp) = Unit {0}
IsOutcome transport (err e) = (is_retryable e ≡ false) ⊎ (e ≡ transport.exceeded_err)

module _ {W : Type 0} (cfg : ReconnectConfig) (transport : Transport W) where
  -- The loop, run with some fuel, ends with an outcome.
  abbrev pub Ends : ℕ → ℕ → ℕ → W → Type 0
  Ends fuel failures rebuild_failures w =
      (result : Result Response ModbusError) × (after : W) × (reconnect_loop fuel cfg transport
          failures rebuild_failures w
        ≡ some (result, after))
      × IsOutcome transport result

  -- One round: it ends the loop, or the counters that the next round starts with have not reached their
  -- limits.
  round-Ends :
      (fuel failures rebuild_failures : ℕ) (w : W)
      → (not (transport.rebuild (transport.send w).1).0 && leb 3 (rebuild_failures + 1) ≡ false
          → ltb 0 cfg.max_retries && ltb cfg.max_retries ((failures + 1) % 2 ^ 32) ≡ false
          → Ends fuel
              ((failures + 1) % 2 ^ 32)
              (if (transport.rebuild (transport.send w).1).0 then 0 else rebuild_failures + 1)
              (transport.rebuild (transport.send w).1).1)
      → Ends (suc fuel) failures rebuild_failures w
  unfolding reconnect_loop
  round-Ends fuel failures rebuild_failures w next = elim (Result-cases (transport.send w).0) [
    | inl (rsp, e) ↦ (ok rsp, (transport.send w).1, rw (reconnect_loop, e) refl, tt)
    | inr (x, e) ↦ elim (Bool-cases (is_retryable x)) [
      | inr final ↦ (err x, (transport.send w).1, rw (reconnect_loop, e, final) refl, inl final)
      | inl again ↦
          elim (Bool-cases
            (ltb 0 cfg.max_retries && ltb cfg.max_retries ((failures + 1) % 2 ^ 32))) [
              | inl many ↦ (
                err transport.exceeded_err,
                (transport.send w).1,
                rw (reconnect_loop, e, again, many) refl,
                inr refl,
              )
              | inr few ↦
                  elim (Bool-cases (
                    not (transport.rebuild (transport.send w).1).0
                    && leb 3 (rebuild_failures + 1))) [
                      | inl broken ↦ (
                        err transport.exceeded_err,
                        (transport.rebuild (transport.send w).1).1,
                        rw (reconnect_loop, e, again, few, broken) refl,
                        inr refl,
                      )
                      | inr alive ↦
                          let (result, after, run, outcome) = next alive few in
                          (result, after, rw (reconnect_loop, e, again, few, alive) run, outcome)
                    ]
            ]
    ]
  ]

  retries-end :
      (fuel failures rebuild_failures : ℕ) (w : W)
      → 0 < cfg.max_retries
      → cfg.max_retries + 1 < 2 ^ 32
      → failures ≤ cfg.max_retries
      → cfg.max_retries - failures < fuel
      → Ends fuel failures rebuild_failures w
  retries-end zero failures rebuild_failures w some_ word le lt = absurd (omega arith)
  retries-end (suc fuel) failures rebuild_failures w some_ word le lt =
      round-Ends fuel failures rebuild_failures w (λ alive few.
        retries-end fuel ((failures + 1) % 2 ^ 32) _ _ some_ word (ground arith) (ground arith))

  -- With a reconnect configuration whose limit on the retries is not 0 and below the largest 32-bit number,
  -- the call returns after at most one attempt more than the limit, whatever the transport does: with a
  -- response, with an error that is not retryable, or with the error of the loop.
  pub run_with_reconnect-ends :
      (w : W)
      → 0 < cfg.max_retries
      → cfg.max_retries + 1 < 2 ^ 32
      → (result : Result Response ModbusError) × (after : W) × (run_with_reconnect
            (cfg.max_retries + 1)
            (some cfg)
            transport
            w
          ≡ some (result, after))
        × IsOutcome transport result
  unfolding run_with_reconnect
  run_with_reconnect-ends w some_ word =
      retries-end (cfg.max_retries + 1) 0 0 w some_ word (omega arith) (omega arith)

  never-Ends :
      (fuel failures rebuild_failures : ℕ) (w : W)
      → ((v : W) → (transport.rebuild v).0 ≡ false)
      → rebuild_failures < 3
      → 2 - rebuild_failures < fuel
      → Ends fuel failures rebuild_failures w
  never-Ends zero failures rebuild_failures w broken few lt = absurd (omega arith)
  never-Ends (suc fuel) failures rebuild_failures w broken few lt =
      round-Ends fuel failures rebuild_failures w (λ alive retry.
        let down = broken (transport.send w).1 in
        rw down (
          never-Ends fuel ((failures + 1) % 2 ^ 32) (rebuild_failures + 1) _ broken
            (ground (arith, alive, down)) (ground (arith, alive, down))))

  -- With a reconnect configuration, where no attempt to rebuild succeeds, the call returns after at most three
  -- attempts to send, also without a limit on the retries: with a
  -- response, an error that is not retryable, or the error of the loop.
  pub run_with_reconnect-gives_up :
      (w : W)
      → ((v : W) → (transport.rebuild v).0 ≡ false)
      → (result : Result Response ModbusError) × (after : W) × (run_with_reconnect 3
            (some cfg)
            transport
            w
          ≡ some (result, after))
        × IsOutcome transport result
  unfolding run_with_reconnect
  run_with_reconnect-gives_up w broken = never-Ends 3 0 0 w broken (omega arith) (omega arith)
