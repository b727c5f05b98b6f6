-- ===== src/Buffer/Contents.antt =====
-- What the ring holds: the last bytes written, oldest first (internal/cluster/buffer.go).
use kubernetes_monitor.Prelude.{
  ℕ, suc, ◌+◌, ◌-◌, ◌%◌, ◌≤◌, ◌<◌, ◌≡◌, refl, sym, ap, ap₂, ◌∙◌, ◌⊎◌, inl, inr, true, List, [], ◌∷◌,
  ◌++◌, length, take, drop, last, replicate, set, length-append, length-drop, length-take,
  length-set, drop-append, drop-drop, take-set, drop-set, drop_congr, take_of_length-le,
  drop_of_length-le, arith, Bool-cases, if◌then◌else◌, ◌==◌, nat_eq,
}
use mathlib.Core.List.{append-nil, append_assoc}
use kubernetes_monitor.Buffer.{CircularBuffer, new_circular_buffer, write_byte, write, bytes}
use kubernetes_monitor.Buffer.Ring.{IsRing, new-IsRing, write_byte-IsRing, write-IsRing}

-- The bytes that the ring holds, oldest first.
abbrev pub contents : CircularBuffer → List ℕ
contents c = if c.full then drop c.start c.buf ++ take c.start c.buf else take c.end c.buf

-- The next position: one further, or round to 0.
next_position :
    (n s : ℕ) → s < n → ((s + 1) % n ≡ suc s) × (suc s < n) ⊎ ((s + 1) % n ≡ 0) × (suc s ≡ n)
next_position n s k = grind arith

module _ {ℓ} {A : Type ℓ} where
  last_of_length-le : (n : ℕ) (xs : List A) → length xs ≤ n → last n xs ≡ xs
  last_of_length-le n xs h = drop_congr {n = 0} xs (omega arith)

  -- To keep the last `n` of a list and then of what follows is to keep the last `n` of it all.
  last-append-last : (n : ℕ) (xs ys : List A) → last n (last n xs ++ ys) ≡ last n (xs ++ ys)
  last-append-last n xs ys = rw (← whole) (
      drop-drop (length (drop d (xs ++ ys)) - n) d (xs ++ ys)
      ∙ drop_congr (xs ++ ys) (omega (arith, length-append xs ys, length-drop d (xs ++ ys))))
    where
      d : ℕ
      d = length xs - n

      whole : drop d (xs ++ ys) ≡ drop d xs ++ ys
      whole = drop-append d xs ys ∙ ap (◌++◌ (drop d xs)) (drop_congr {n = 0} ys (omega arith))

  -- One write at index `e` of a ring that is not full, and at index `s` of a full one.
  room_step :
      (size e : ℕ) (b : A) (buf : List A)
      → length buf ≡ size
      → e < size
      → take (suc e) (set buf e b) ≡ last size (take e buf ++ b ∷ [])
  room_step size e b buf h k =
      take-set e b buf (omega arith)
      ∙ sym (
          last_of_length-le size (take e buf ++ b ∷ [])
            (omega (arith, length-append (take e buf) (b ∷ []), length-take e buf)))

  full_step :
      (size s : ℕ) (b : A) (buf : List A)
      → length buf ≡ size
      → s < size
      → last size ((drop s buf ++ take s buf) ++ b ∷ [])
        ≡ drop (suc s) buf ++ (take s buf ++ b ∷ [])
  full_step size s b buf h k =
      drop_congr {n = 1} ((drop s buf ++ take s buf) ++ b ∷ []) (
        omega (
          arith,
          length-append (drop s buf ++ take s buf) (b ∷ []),
          length-append (drop s buf) (take s buf),
          length-take s buf,
          length-drop s buf,
        ))
      ∙ ap (drop 1) (append_assoc (drop s buf) (take s buf) (b ∷ []))
      ∙ drop-append 1 (drop s buf) (take s buf ++ b ∷ [])
      ∙ ap₂ ◌++◌ (drop-drop 1 s buf ∙ drop_congr buf next)
          (drop_congr {n = 0} (take s buf ++ b ∷ []) (omega (arith, length-drop s buf)))
    where
      next : s + 1 ≡ suc s
      next = omega arith

  rotate :
      (size s : ℕ) (b : A) (buf : List A)
      → length buf ≡ size
      → s < size
      → let n = (s + 1) % size in
        drop n (set buf s b) ++ take n (set buf s b) ≡ drop (suc s) buf ++ (take s buf ++ b ∷ [])
  rotate size s b buf h k = elim (next_position size s k) [
    | inl (e, _) ↦ rw e (ap₂ ◌++◌ (drop-set s b buf) (take-set s b buf (omega arith)))
    | inr (e, z) ↦ rw e (
        append-nil (set buf s b)
        ∙ sym (take_of_length-le (suc s) (set buf s b) (omega (arith, length-set buf s b)))
        ∙ take-set s b buf (omega arith)
        ∙ sym (ap (λ l. l ++ (take s buf ++ b ∷ [])) (drop_of_length-le (suc s) buf (omega arith))))
  ]

  fill :
      (size e : ℕ) (b : A) (buf : List A)
      → length buf ≡ size
      → e < size
      → let n = (e + 1) % size in
        (if n == 0 then drop 0 (set buf e b) ++ take 0 (set buf e b) else take n (set buf e b))
        ≡ last size (take e buf ++ b ∷ [])
  fill size e b buf h k = elim (next_position size e k) [
    | inl (p, _) ↦ ground (arith, room_step size e b buf h k)
    | inr (p, z) ↦ rw p (
        append-nil (set buf e b)
        ∙ sym (take_of_length-le (suc e) (set buf e b) (omega (arith, length-set buf e b)))
        ∙ room_step size e b buf h k)
  ]

write_byte-contents :
    (c : CircularBuffer) (b : ℕ)
    → IsRing c
    → contents (write_byte c b) ≡ last c.capacity (contents c ++ b ∷ [])
unfolding write_byte
write_byte-contents c b v = elim (Bool-cases c.full) [
  | inl f ↦ ground (
    arith,
    rotate c.capacity c.start b c.buf v.storage,
    full_step c.capacity c.start b c.buf v.storage,
    v.when_full f,
    v.end_in,
  )
  | inr f ↦ ground (arith, fill c.capacity c.end b c.buf v.storage v.end_in, v.not_full f)
]

-- The ring never holds more bytes than its capacity.
length-contents-le : (c : CircularBuffer) → IsRing c → length (contents c) ≤ c.capacity
length-contents-le c v = ground (
  arith,
  v.storage,
  length-append (drop c.start c.buf) (take c.start c.buf),
  length-drop c.start c.buf,
  length-take c.start c.buf,
  length-take c.end c.buf,
)

capacity-write_byte : (c : CircularBuffer) (b : ℕ) → (write_byte c b).capacity ≡ c.capacity
unfolding write_byte
capacity-write_byte c b = refl

-- A write of any length leaves the last `capacity` bytes of what the ring held followed by what
-- was written.
pub contents-write :
    (c : CircularBuffer) (p : List ℕ)
    → IsRing c
    → contents (write c p) ≡ last c.capacity (contents c ++ p)
unfolding write
contents-write c [] v = sym (
    last_of_length-le c.capacity (contents c ++ [])
      (rw (append-nil (contents c)) (length-contents-le c v))
    ∙ append-nil (contents c))
contents-write c (b ∷ p) v = rw (
  contents-write (write_byte c b) p (write_byte-IsRing c b v),
  capacity-write_byte c b,
  write_byte-contents c b v,
  last-append-last c.capacity (contents c ++ b ∷ []) p,
  append_assoc (contents c) (b ∷ []) p,
)

-- Something has been written since the ring was made.
abbrev IsWritten : CircularBuffer → Type 0
IsWritten c = (c.full ≡ true) ⊎ (0 < c.end)

write_byte-IsWritten : (c : CircularBuffer) (b : ℕ) → IsRing c → IsWritten (write_byte c b)
unfolding write_byte
write_byte-IsWritten c b v = ground (arith, v.not_full)

write-IsWritten : (c : CircularBuffer) (p : List ℕ) → IsRing c → IsWritten c → IsWritten (write c p)
unfolding write
write-IsWritten c [] v w = w
write-IsWritten c (b ∷ p) v w =
    write-IsWritten (write_byte c b) p (write_byte-IsRing c b v) (write_byte-IsWritten c b v)

bytes-contents : (c : CircularBuffer) → IsRing c → IsWritten c → bytes c ≡ contents c
unfolding bytes
bytes-contents c v w = ground (arith, v.not_full, v.when_full, v.end_in)

-- What the ring of this capacity gives back after these bytes.
abbrev pub read_back : ℕ → List ℕ → List ℕ
read_back capacity [] = replicate capacity 0
read_back capacity (b ∷ p) = last capacity (b ∷ p)

contents-new : (capacity : ℕ) → contents (new_circular_buffer capacity) ≡ []
unfolding new_circular_buffer
contents-new capacity = refl

bytes-new : (capacity : ℕ) → bytes (new_circular_buffer capacity) ≡ replicate capacity 0
unfolding bytes new_circular_buffer
bytes-new capacity = append-nil (replicate capacity 0)

capacity-write : (c : CircularBuffer) (p : List ℕ) → (write c p).capacity ≡ c.capacity
unfolding write
capacity-write c [] = refl
capacity-write c (b ∷ p) = capacity-write (write_byte c b) p ∙ capacity-write_byte c b

capacity-new : (capacity : ℕ) → (new_circular_buffer capacity).capacity ≡ capacity
unfolding new_circular_buffer
capacity-new capacity = refl

-- Of a new ring with a positive capacity `Bytes` returns, after any writes, the last `capacity`
-- bytes written, oldest first; but if nothing was written it returns `capacity` zero bytes.
pub bytes-write :
    (capacity : ℕ) (p : List ℕ)
    → 0 < capacity
    → bytes (write (new_circular_buffer capacity) p) ≡ read_back capacity p
unfolding write
bytes-write capacity [] h = bytes-new capacity
bytes-write capacity (b ∷ p) h =
    bytes-contents _ (write-IsRing new (b ∷ p) ring) (
      write-IsWritten (write_byte new b) p (write_byte-IsRing new b ring)
        (write_byte-IsWritten new b ring))
    ∙ contents-write new (b ∷ p) ring
    ∙ rw (contents-new capacity, capacity-new capacity) refl
  where
    new : CircularBuffer
    new = new_circular_buffer capacity

    ring : IsRing new
    ring = new-IsRing capacity h

-- Two writes are one write of both.
pub write-append : (c : CircularBuffer) (p q : List ℕ) → write (write c p) q ≡ write c (p ++ q)
unfolding write
write-append c [] q = refl
write-append c (b ∷ p) q = write-append (write_byte c b) p q
