-- ===== src/Receive/Whole.antt =====
-- src/transport/send_recv.rs: reads in pieces give the whole.
use oms_modbus.Base.{
  ℕ, ◌≤◌, ◌≡◌, ◌≢◌, refl, sym, ap, ◌∙◌, List, [], ◌∷◌, ◌++◌, some, ok, leb, length, arith,
  Bool-cases, inl, inr, flatten, map, append-nil, append_assoc, length-append,
}
use oms_modbus.Errors.{ModbusError}
use oms_modbus.Receive.{ReadOutcome, some_bytes, elapsed, partial, read_at_least}

nil_of_length : (xs : List ℕ) → length xs ≡ 0 → xs ≡ []
nil_of_length [] h = refl
nil_of_length (x ∷ xs) h = absurd (omega arith)

partial-ok : (e : ModbusError) (xs : List ℕ) → xs ≢ [] → partial e xs ≡ ok xs
unfolding partial
partial-ok e [] h = absurd (h refl)
partial-ok e (x ∷ xs) h = refl

-- However bytes, no more than the target, are cut into reads: when the time is over behind them, or before
-- it when the target is reached, they are returned.
pub read_at_least-pieces :
    (target : ℕ) (buf : List ℕ) (chunks : List (List ℕ)) (later : List ReadOutcome) (whole : List ℕ)
    → buf ++ flatten chunks ≡ whole
    → length whole ≤ target
    → whole ≢ []
    → read_at_least target buf (map some_bytes chunks ++ (elapsed ∷ later)) ≡ some (ok whole)
unfolding read_at_least
read_at_least-pieces target buf [] later whole e fits more =
    let same : buf ≡ whole = sym (append-nil buf) ∙ e in
    elim (Bool-cases (leb target (length buf))) [
      | inl full ↦ rw full (ap (λ b. some (ok b)) same)
      | inr short ↦ rw short (
          ap (λ b. some (partial ModbusError.timeout b)) same
          ∙ ap some (partial-ok ModbusError.timeout whole more))
    ]
read_at_least-pieces target buf (chunk ∷ chunks) later whole e fits more =
    elim (Bool-cases (leb target (length buf))) [
      | inl full ↦
          let size = length-append buf (chunk ++ flatten chunks) in
          let reached : target ≤ length buf = ground (arith, full) in
          let rest : chunk ++ flatten chunks ≡ [] =
            nil_of_length _ (omega (arith, size, ap length e, reached)) in
          rw full (ap (λ b. some (ok b)) (sym (append-nil buf) ∙ ap (λ l. buf ++ l) (sym rest) ∙ e))
      | inr short ↦ rw short (
          read_at_least-pieces target (buf ++ chunk) chunks later whole
            (append_assoc buf chunk (flatten chunks) ∙ e) fits more)
    ]
