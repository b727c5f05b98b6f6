-- ===== src/Buffer/Ring.antt =====
-- The invariant of the ring, kept by every write (internal/cluster/buffer.go, `Write`).
use kubernetes_monitor.Prelude.{
  ℕ, ◌<◌, ◌≡◌, refl, true, false, List, [], ◌∷◌, ◌++◌, length, length-set, length-replicate, arith,
}
use kubernetes_monitor.Buffer.{CircularBuffer, new_circular_buffer, write_byte, write}

-- The storage has the capacity's length, both positions lie inside it, a ring that never wrapped
-- starts at 0, and in a full one the next byte goes where the oldest stands.
pub record IsRing (c : CircularBuffer) : Type 0 where
  pub storage : length c.buf ≡ c.capacity
  pub end_in : c.end < c.capacity
  pub not_full : c.full ≡ false → c.start ≡ 0
  pub when_full : c.full ≡ true → c.start ≡ c.end

pub new-IsRing : (capacity : ℕ) → 0 < capacity → IsRing (new_circular_buffer capacity)
unfolding new_circular_buffer
new-IsRing capacity h = record {
  storage = length-replicate capacity 0;
  end_in = h;
  not_full = λ _. omega arith;
  when_full = λ e. omega arith;
}

pub write_byte-IsRing : (c : CircularBuffer) (b : ℕ) → IsRing c → IsRing (write_byte c b)
unfolding write_byte
write_byte-IsRing c b v = record {
  storage = ground (arith, length-set c.buf c.end b, v.storage);
  end_in = ground (arith, v.end_in);
  not_full = λ e. ground (arith, v.end_in, v.not_full, v.when_full);
  when_full = λ e. ground (arith, v.end_in, v.not_full, v.when_full);
}

-- Every write keeps the ring well formed.
pub write-IsRing : (c : CircularBuffer) (p : List ℕ) → IsRing c → IsRing (write c p)
unfolding write
write-IsRing c [] v = v
write-IsRing c (b ∷ p) v = write-IsRing (write_byte c b) p (write_byte-IsRing c b v)

pub write-append : (c : CircularBuffer) (p q : List ℕ) → write (write c p) q ≡ write c (p ++ q)
unfolding write
write-append c [] q = refl
write-append c (b ∷ p) q = write-append (write_byte c b) p q
