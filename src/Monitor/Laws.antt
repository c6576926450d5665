-- ===== src/Monitor/Laws.antt =====
-- src/monitor/ring_buffer.rs: a bounded capture keeps the latest records in order and counts the
-- others.
use oms_modbus.Base.{
  ℕ, zero, suc, ◌+◌, ◌-◌, ◌^◌, ◌%◌, ◌≤◌, ◌<◌, ◌≡◌, refl, sym, ap, subst, ◌∙◌, max, false, ◌||◌,
  List, [], ◌∷◌, ◌++◌, ltb, length, drop,
}
use oms_modbus.Base.{
  arith, append-nil, append_assoc, length-append, length-drop, Bool-cases, inl, inr,
}
use oms_modbus.Monitor.{RingBufferCapture, new, add_record, add_records, drain}

module _ {A : Type 0} where
  -- The capture of all records seen so far, `seen`: the latest ones up to the capacity, and the number of
  -- the others.
  pub record IsCapture (seen : List A) (capture : RingBufferCapture A) : Type 0 where
    pub latest : capture.records ≡ drop (length seen - capture.capacity) seen
    pub room : 1 ≤ capture.capacity
    pub counted : capture.dropped ≡ length seen - capture.capacity
    pub bounded : capture.is_unbounded ≡ false

  drop_append : (n : ℕ) (xs ys : List A) → n ≤ length xs → drop n (xs ++ ys) ≡ drop n xs ++ ys
  drop_append zero xs ys h = refl
  drop_append (suc n) [] ys h = absurd (omega arith)
  drop_append (suc n) (x ∷ xs) ys h = drop_append n xs ys (omega arith)

  drop-drop : (n : ℕ) (xs : List A) → drop 1 (drop n xs) ≡ drop (suc n) xs
  drop-drop zero [] = refl
  drop-drop zero (x ∷ xs) = refl
  drop-drop (suc n) [] = refl
  drop-drop (suc n) (x ∷ xs) = drop-drop n xs

  add_record-IsCapture :
      (seen : List A) (capture : RingBufferCapture A) (x : A)
      → length seen < 2 ^ 64
      → IsCapture seen capture
      → IsCapture (seen ++ (x ∷ [])) (add_record capture x)
  unfolding add_record
  add_record-IsCapture seen capture x word h =
      let excess = length seen - capture.capacity in
      let size : length capture.records ≡ length seen - excess =
        ap length h.latest ∙ length-drop excess seen in
      let longer = length-append seen (x ∷ []) in
      elim (Bool-cases (ltb (length capture.records) capture.capacity)) [
        | inl space ↦
            let none_lost : excess ≡ 0 = ground (arith, size) in
            let none_now : length (seen ++ (x ∷ [])) - capture.capacity ≡ 0 =
              ground (arith, size, longer) in
            let all : capture.records ≡ seen = h.latest ∙ ap (λ n. drop n seen) none_lost in
            rw (h.bounded, space)
              (record {
                latest =
                    ap (λ l. l ++ (x ∷ [])) all
                    ∙ sym (ap (λ n. drop n (seen ++ (x ∷ []))) none_now);
                room = h.room;
                counted = h.counted ∙ none_lost ∙ sym none_now;
                bounded = refl;
              })
        | inr full ↦
            let one_more : length (seen ++ (x ∷ [])) - capture.capacity ≡ suc excess =
              ground (arith, size, longer) in
            let enough : suc excess ≤ length seen = ground (arith, size, h.room) in
            let count : (excess + 1) % 2 ^ 64 ≡ suc excess = omega (arith, h.room) in
            rw (h.bounded, full)
              (record {
                latest =
                    ap (λ l. drop 1 l ++ (x ∷ [])) h.latest
                    ∙ ap (λ l. l ++ (x ∷ [])) (drop-drop excess seen)
                    ∙ sym (drop_append (suc excess) seen (x ∷ []) enough)
                    ∙ sym (ap (λ n. drop n (seen ++ (x ∷ []))) one_more);
                room = h.room;
                counted = ap (λ n. (n + 1) % 2 ^ 64) h.counted ∙ count ∙ sym one_more;
                bounded = refl;
              })
      ]

  add_records-IsCapture :
      (seen xs : List A) (capture : RingBufferCapture A)
      → length seen + length xs < 2 ^ 64
      → IsCapture seen capture
      → IsCapture (seen ++ xs) (add_records capture xs)
  unfolding add_records
  add_records-IsCapture seen [] capture word h = rw (append-nil seen) h
  add_records-IsCapture seen (x ∷ xs) capture word h =
      subst (λ l. IsCapture l (add_records (add_record capture x) xs))
        (append_assoc seen (x ∷ []) xs)
        (add_records-IsCapture (seen ++ (x ∷ [])) xs (add_record capture x)
          (omega (arith, length-append seen (x ∷ [])))
          (add_record-IsCapture seen capture x (omega arith) h))

  new-IsCapture : (n : ℕ) → IsCapture [] (new n)
  unfolding new
  new-IsCapture n = record {
    latest = ground arith;
    room = omega arith;
    counted = omega arith;
    bounded = refl;
  }

  add_record-capacity :
      (capture : RingBufferCapture A) (x : A) → (add_record capture x).capacity ≡ capture.capacity
  unfolding add_record
  add_record-capacity capture x =
      elim (Bool-cases (capture.is_unbounded || ltb (length capture.records) capture.capacity)) [
        | inl space ↦ rw space refl
        | inr full ↦ rw full refl
      ]

  add_records-capacity :
      (xs : List A) (capture : RingBufferCapture A)
      → (add_records capture xs).capacity ≡ capture.capacity
  unfolding add_records
  add_records-capacity [] capture = refl
  add_records-capacity (x ∷ xs) capture =
      add_records-capacity xs (add_record capture x) ∙ add_record-capacity capture x

new-capacity : (A : Type 0) (n : ℕ) → (new {A = A} n).capacity ≡ max n 1
unfolding new
new-capacity A n = refl

-- After fewer than 2^64 records a bounded capture holds the latest ones, as many as its capacity, at least
-- one, allows, in the order in which they came, and its counter is the number of the others.
pub new-add_records :
    {A : Type 0} (n : ℕ) (xs : List A)
    → length xs < 2 ^ 64
    → ((drain (add_records (new n) xs)).0 ≡ drop (length xs - max n 1) xs)
      × ((add_records (new n) xs).dropped ≡ length xs - max n 1)
unfolding drain
new-add_records n xs word =
    let after = add_records-IsCapture [] xs (new n) (omega arith) (new-IsCapture n) in
    let cap = add_records-capacity xs (new n) ∙ new-capacity _ n in
    (
      after.latest ∙ ap (λ c. drop (length xs - c) xs) cap,
      after.counted ∙ ap (λ c. length xs - c) cap,
    )
