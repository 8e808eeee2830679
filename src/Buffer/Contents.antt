-- ===== src/Buffer/Contents.antt =====
-- What each operation of mac/chatkit/cim/base/buffer.h does to the bytes that the buffer holds: the
-- buffer behaves as a queue of bytes.
use coffee_chat_desktop.Prelude.{
  ℕ_discrete, ℕ, ◌+◌, ◌-◌, ◌*◌, ◌≤◌, ◌<◌, ◌≡◌, ap, ◌∙◌, List, [], ◌∷◌, ◌++◌, length, abort, ok,
  take, drop, size_mod, Returns, Returns-bind, arith, drop_all, take_all,
}
use coffee_chat_desktop.Prelude.Memory.{
  get_or-window, window, length-blit, window-blit_after, window-blit_before, take-window,
  drop-window,
}
use coffee_chat_desktop.Buffer.{
  Buffer, truncate, reset, skip, write, ensure_writable_bytes, prepend, unwrite_bytes, write_bytes,
  fill_at_write_begin, length_of, writable_bytes,
}
use coffee_chat_desktop.Buffer.Read.{to_slice, read_byte, next, next_all}
use coffee_chat_desktop.Buffer.Valid.{
  IsValid, contents, room, length-contents, length_of_lem, writable_bytes_lem,
}
use coffee_chat_desktop.Buffer.Grow.{MakesRoom, ensure_writable_bytes_lem}

-- The buffer `b'` is valid and holds `bytes`.
pub record Holds (bytes : List ℕ) (b' : Buffer) : Type 0 where
  pub valid : IsValid b'
  pub held : contents b' ≡ bytes

-- Every valid buffer takes a write of any length, as long as its size stays a `size_t`: no assert
-- fails, the bytes are put behind those that it holds, and it is no larger than it may have to be.
pub write_lem :
    (b : Buffer) (d : List ℕ)
    → IsValid b
    → b.capacity * 2 + length d < size_mod
    → Returns
        (write b d)
        (λ b'. Holds (contents b ++ d) b' × (b'.capacity ≤ b.capacity * 2 + length d))
unfolding write
write_lem b d v h =
    Returns-bind (MakesRoom b (length d)) _ (ensure_writable_bytes b (length d)) _
      (ensure_writable_bytes_lem b (length d) v h)
      (λ b' m. ground (
        arith,
        m,
        length-blit b'.buffer b'.write_index d,
        window-blit_after b'.buffer b'.read_index (b'.write_index - b'.read_index) d,
      ))

pub reset_lem : (b : Buffer) → IsValid b → Holds [] (reset b)
unfolding reset
reset_lem b v = ground arith

-- The bytes from `n` on, as the storage holds them behind the moved index.
drop-contents :
    (b : Buffer) (n : ℕ)
    → IsValid b
    → n ≤ b.write_index - b.read_index
    → drop n (contents b) ≡ window b.buffer (b.read_index + n) (b.write_index - (b.read_index + n))
drop-contents b n v h =
    drop-window b.buffer b.read_index n (b.write_index - b.read_index) h (omega (arith, v.storage))
    ∙ ap (window b.buffer (b.read_index + n)) (omega arith)

-- `Skip` on a valid buffer drops bytes from the front, all of them if it is asked for as many or
-- more.
pub skip_lem :
    (b : Buffer) (n : ℕ)
    → IsValid b
    → Returns (skip b n) (λ b'. Holds (drop n (contents b)) b' × (b'.capacity ≡ b.capacity))
unfolding skip length_of reset
skip_lem b n v = ground (arith, drop-contents b n v, drop_all n (contents b), length-contents b v)

-- `Truncate` of a valid buffer keeps the first `n` bytes, all if there are fewer, as long as the
-- sum of `n` and the read index is a `size_t`.
pub truncate_lem :
    (b : Buffer) (n : ℕ)
    → IsValid b
    → b.read_index + n < size_mod
    → Holds (take n (contents b)) (truncate b n)
unfolding truncate
truncate_lem b n v h = elim (ℕ_discrete n 0) [
  | yes e ↦ rw e (ground arith)
  | no ne ↦ ground (
    arith,
    take-window b.buffer b.read_index n (b.write_index - b.read_index),
    take_all n (contents b),
    length-contents b v,
  )
]

-- `Next` on a valid buffer hands out the first `len` bytes, all if there are fewer, and keeps the
-- rest.
pub next_lem :
    (b : Buffer) (len : ℕ)
    → IsValid b
    → Returns (next b len) (λ r. (r.0 ≡ take len (contents b)) × Holds (drop len (contents b)) r.1)
unfolding next next_all length_of reset
next_lem b len v = ground (
  arith,
  drop-contents b len v,
  drop_all len (contents b),
  take_all len (contents b),
  take-window b.buffer b.read_index len (b.write_index - b.read_index),
  length-contents b v,
)

-- `Prepend` on a valid buffer puts bytes in front of those that are held, if there is room in
-- front.
pub prepend_lem :
    (b : Buffer) (d : List ℕ)
    → IsValid b
    → length d ≤ b.read_index
    → Returns
        (prepend b d)
        (λ b'. Holds (d ++ contents b) b' × (b'.read_index + length d ≡ b.read_index))
unfolding prepend
prepend_lem b d v h = ground (
  arith,
  length-blit b.buffer (b.read_index - length d) d,
  window-blit_before b.buffer (b.read_index - length d) (b.write_index - b.read_index) d,
)

-- `UnwriteBytes` drops bytes from the back, as many as it is asked for, if it holds as many.
pub unwrite_bytes_lem :
    (b : Buffer) (n : ℕ)
    → IsValid b
    → n ≤ length (contents b)
    → Returns (unwrite_bytes b n) (Holds (take (length (contents b) - n) (contents b)))
unfolding unwrite_bytes length_of
unwrite_bytes_lem b n v h = ground (
  arith,
  length-contents b v,
  take-window b.buffer b.read_index (b.write_index - b.read_index - n)
      (b.write_index - b.read_index),
)

-- Bytes that were filled in from `WriteBegin()` on are taken up by `WriteBytes`, if they fit behind
-- those that are held.
pub write_bytes-fill :
    (b : Buffer) (d : List ℕ)
    → IsValid b
    → length d ≤ room b
    → Returns
        (write_bytes (fill_at_write_begin b d) (length d))
        (λ b'. Holds (contents b ++ d) b' × (b'.capacity ≡ b.capacity))
unfolding write_bytes fill_at_write_begin writable_bytes
write_bytes-fill b d v h = ground (
  arith,
  length-blit b.buffer b.write_index d,
  window-blit_after b.buffer b.read_index (b.write_index - b.read_index) d,
)

-- A write that fits behind what is held does not move it, and uses up that much of the room.
pub write_fits :
    (b : Buffer) (d : List ℕ)
    → IsValid b
    → length d ≤ room b
    → Returns (write b d) (λ b'.
      Holds (contents b ++ d) b' × (b'.capacity ≡ b.capacity) × (room b' + length d ≡ room b))
unfolding write ensure_writable_bytes
write_fits b d v h = ground (
  arith,
  writable_bytes_lem b v,
  length-blit b.buffer b.write_index d,
  window-blit_after b.buffer b.read_index (b.write_index - b.read_index) d,
)

-- `ReadByte` on a valid buffer that is not empty hands out its first byte, and keeps the rest.
pub read_byte_lem :
    (b : Buffer) (x : ℕ) (rest : List ℕ)
    → IsValid b
    → contents b ≡ x ∷ rest
    → Returns (read_byte b) (λ r. (r.0 ≡ x) × Holds rest r.1)
unfolding read_byte length_of
read_byte_lem b x rest v e = ground (
  arith,
  length-contents b v,
  ap length e,
  ap (drop 1) e,
  drop-contents b 1 v,
  get_or-window b.buffer b.read_index (b.write_index - b.read_index) 0 x rest e,
)

-- `ReadByte` stops at its assert on a valid buffer that is empty: the branch that would return 0
-- is not taken.
pub read_byte_empty : (b : Buffer) → IsValid b → contents b ≡ [] → read_byte b ≡ abort
unfolding read_byte
read_byte_empty b v e = rw (length_of_lem b v, e)

pub to_slice_lem : (b : Buffer) → IsValid b → to_slice b ≡ ok (contents b)
unfolding to_slice length_of
to_slice_lem b v = ground arith
