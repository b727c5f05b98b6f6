-- ===== src/Buffer.antt =====
-- internal/cluster/buffer.go: the ring of bytes that `parseLogs` reads a container's log through.
-- A byte is any number: it is only moved. Go's slice writes in place; here `buf` is a list, and the
-- indices are proved to lie inside it (Buffer/Ring). `NewCircularBuffer(0)` cannot be written to
-- (Go would divide by zero), so the theorems ask for a positive capacity.
pub mod Ring
pub mod Contents
use kubernetes_monitor.Prelude.{
  ℕ, ◌+◌, ◌%◌, Bool, true, false, List, [], ◌∷◌, ◌++◌, replicate, set, take, drop, ltb,
  if◌then◌else◌, ◌==◌, nat_eq,
}

pub record CircularBuffer : Type 0 where
  pub buf : List ℕ
  pub start : ℕ
  pub end : ℕ
  pub full : Bool
  pub capacity : ℕ

pub new_circular_buffer : ℕ → CircularBuffer
new_circular_buffer capacity = record {
  buf = replicate capacity 0;
  start = 0;
  end = 0;
  full = false;
  capacity = capacity;
}

-- The body of the loop of `Write`.
pub write_byte : CircularBuffer → ℕ → CircularBuffer
write_byte c b =
    let end' = (c.end + 1) % c.capacity in
    let start' = if c.full then (c.start + 1) % c.capacity else c.start in
    record c {
      buf = set c.buf c.end b;
      end = end';
      start = start';
      full = if end' == start' then true else c.full;
    }

unfoldable pub write : CircularBuffer → List ℕ → CircularBuffer
write c [] = c
write c (b ∷ p) = write (write_byte c b) p

-- `buf[start:end]` is `take (end - start) (drop start buf)`, read as `drop start (take end buf)`.
pub bytes : CircularBuffer → List ℕ
bytes c =
    if ltb c.start c.end
    then drop c.start (take c.end c.buf)
    else drop c.start c.buf ++ take c.end c.buf
