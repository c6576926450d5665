-- ===== src/Sniff/Bounds.antt =====
-- src/transport/sniff_io.rs: what making room in a channel leaves, drops and counts.
use oms_modbus.Base.{
  ℕ, ◌+◌, ◌-◌, ◌^◌, ◌%◌, ◌≤◌, ◌<◌, ◌≡◌, refl, ap, Bool, true, false, List, [], ◌∷◌, ◌++◌, ltb,
  length, arith, Bool-cases, inl, inr,
}
use oms_modbus.Sniff.Channel.{Chunk, SniffChannel, make_room, count_dropped}

-- The bytes of some chunks.
abbrev pub size : List Chunk → ℕ
size [] = 0
size (chunk ∷ rest) = length chunk + size rest

pub size-append : (xs ys : List Chunk) → size (xs ++ ys) ≡ size xs + size ys
size-append [] ys = omega arith
size-append (x ∷ xs) ys = omega (arith, size-append xs ys)

-- A counter of `n` chunks and `m` bytes, in 64 bits.
pub record IsCounter (n m : ℕ) (c : SniffChannel) : Type 0 where
  pub chunks : c.dropped_chunks ≡ n % 2 ^ 64
  pub bytes : c.dropped_bytes ≡ m % 2 ^ 64

pub count_dropped-IsCounter :
    (lost : Chunk) (c : SniffChannel) (n m : ℕ)
    → IsCounter n m c
    → IsCounter (n + 1) (m + length lost) (count_dropped lost c)
unfolding count_dropped
count_dropped-IsCounter lost c n m h = record {
  chunks = omega (arith, h.chunks);
  bytes = omega (arith, h.bytes);
}

-- What is left of the queue `q` of `c` when `extra` more bytes shall find room.
pub record IsRoom (extra : ℕ) (q : List Chunk) (c : SniffChannel) (room : Bool) (c' : SniffChannel)
    : Type 0 where
  pub evicted : List Chunk
  pub split : q ≡ evicted ++ c'.queue
  pub counted : c'.total_bytes ≡ size c'.queue
  pub counter : (n m : ℕ) → IsCounter n m c → IsCounter (n + length evicted) (m + size evicted) c'
  pub fits : room ≡ true → c'.total_bytes + extra ≤ c.capacity
  pub full : room ≡ false → (c'.queue ≡ []) × (c.capacity < extra)
  pub capacity_kept : c'.capacity ≡ c.capacity
  pub closed_kept : c'.closed ≡ c.closed
  pub error_kept : c'.error ≡ c.error
  pub waker_kept : c'.waker ≡ c.waker

-- Nothing goes.
stay-IsRoom :
    (extra : ℕ) (q : List Chunk) (c : SniffChannel) (room : Bool)
    → c.total_bytes ≡ size q
    → (room ≡ true → c.total_bytes + extra ≤ c.capacity)
    → (room ≡ false → (q ≡ []) × (c.capacity < extra))
    → IsRoom extra q c room (record c { queue = q })
stay-IsRoom extra q c room h fits full = record {
  evicted = [];
  split = refl;
  counted = h;
  counter = λ n m k. record { chunks = omega (arith, k.chunks); bytes = omega (arith, k.bytes) };
  fits = fits;
  full = full;
  capacity_kept = refl;
  closed_kept = refl;
  error_kept = refl;
  waker_kept = refl;
}

-- `c` without its oldest chunk.
abbrev pop : Chunk → List Chunk → SniffChannel → SniffChannel
pop old rest c = record c { queue = rest; total_bytes = c.total_bytes - length old }

popped :
    (old : Chunk) (rest : List Chunk) (c : SniffChannel)
    → c.total_bytes ≡ size (old ∷ rest)
    → (count_dropped old (pop old rest c)).total_bytes ≡ size rest
unfolding count_dropped
popped old rest c h = omega (arith, h)

-- The oldest chunk goes first.
pop-IsRoom :
    (extra : ℕ) (old : Chunk) (rest : List Chunk) (c : SniffChannel) (room : Bool)
    → (c' : SniffChannel) → IsRoom extra rest (count_dropped old (pop old rest c)) room c'
    → IsRoom extra (old ∷ rest) c room c'
unfolding count_dropped
pop-IsRoom extra old rest c room c' h = record {
  evicted = old ∷ h.evicted;
  split = ap (λ l. old ∷ l) h.split;
  counted = h.counted;
  counter = λ n m k.
      let next = h.counter (n + 1) (m + length old) (
        count_dropped-IsCounter old (pop old rest c) n m
          (record { chunks = k.chunks; bytes = k.bytes })) in
      record { chunks = omega (arith, next.chunks); bytes = omega (arith, next.bytes) };
  fits = h.fits;
  full = h.full;
  capacity_kept = h.capacity_kept;
  closed_kept = h.closed_kept;
  error_kept = h.error_kept;
  waker_kept = h.waker_kept;
}

pub make_room-IsRoom :
    (extra : ℕ) (q : List Chunk) (c : SniffChannel)
    → c.total_bytes ≡ size q
    → IsRoom extra q c (make_room extra q c).0 (make_room extra q c).1
unfolding make_room
make_room-IsRoom extra [] c h = elim (Bool-cases (ltb c.capacity (c.total_bytes + extra))) [
  | inl over ↦
      rw over (stay-IsRoom extra [] c false h (λ e. absurd (cc)) (λ e. (refl, ground arith)))
  | inr within ↦ rw within (stay-IsRoom extra [] c true h (λ e. ground arith) (λ e. absurd (cc)))
]
make_room-IsRoom extra (old ∷ rest) c h =
    elim (Bool-cases (ltb c.capacity (c.total_bytes + extra))) [
      | inl over ↦ rw over (
          pop-IsRoom extra old rest c _ _ (
            make_room-IsRoom extra rest (count_dropped old (pop old rest c)) (popped old rest c h)))
      | inr within ↦
          rw within (stay-IsRoom extra (old ∷ rest) c true h (λ e. ground arith) (λ e. absurd (cc)))
    ]
