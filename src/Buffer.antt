-- ===== src/Buffer.antt =====
-- mac/chatkit/cim/base/buffer.h and buffer.cpp: the byte buffer of the receive and send paths.
use coffee_chat_desktop.Prelude.{
  ℕ, suc, ◌+◌, ◌-◌, ◌*◌, ◌/◌, ◌%◌, ◌^◌, Bool, true, false, List, [], ◌∷◌, ◌++◌, Option, none, some,
  if◌then◌else◌, ltb, leb, ◌==◌, length, get_or, take, drop, replicate, add_size, sub_size,
  size_mod, Outcome, ok, abort, ◌>>=◌, ◌>>◌, assert,
}
use coffee_chat_desktop.Prelude.Memory.{blit, window}
use Bytes.{be_bytes, of_be, le_bytes, of_le, bswap64}
pub mod Bytes
pub mod Read
pub mod Valid
pub mod Grow
pub mod Contents
pub mod Integers
pub mod Queue

-- `buffer` is the storage that `buffer_` points to; an index is a `size_t`.
pub record Buffer : Type 0 where
  pub buffer : List ℕ
  pub capacity : ℕ
  pub read_index : ℕ
  pub write_index : ℕ
  pub reserved_prepend_size : ℕ

abbrev pub cheap_prepend_size : ℕ
cheap_prepend_size = 8

abbrev pub initial_size : ℕ
initial_size = 1024

-- `length()`; behind its assert the difference does not wrap.
unfoldable pub length_of : Buffer → Outcome ℕ
length_of b = do assert (leb b.read_index b.write_index); ok (b.write_index - b.read_index)

unfoldable pub writable_bytes : Buffer → Outcome ℕ
writable_bytes b = do assert (leb b.write_index b.capacity); ok (b.capacity - b.write_index)

abbrev pub prependable_bytes : Buffer → ℕ
prependable_bytes b = b.read_index

-- `data()` read for `n` bytes.
abbrev pub bytes_at_data : Buffer → ℕ → List ℕ
bytes_at_data b n = window b.buffer b.read_index n

-- What `new char[n]` holds is not specified; the model takes zeros.
abbrev pub fresh : ℕ → List ℕ
fresh n = replicate n 0

-- The constructor.
unfoldable pub create : ℕ → ℕ → Outcome Buffer
unfolding length_of writable_bytes
create initial reserved = do
  let b : Buffer = record {
    buffer = fresh (add_size reserved initial);
    capacity = add_size reserved initial;
    read_index = reserved;
    write_index = reserved;
    reserved_prepend_size = reserved;
  }
  n ← length_of b
  assert (n == 0)
  w ← writable_bytes b
  assert (w == initial)
  assert (prependable_bytes b == reserved)
  ok b

unfoldable pub swap : Buffer → Buffer → Buffer × Buffer
swap b rhs = (rhs, b)

unfoldable pub truncate : Buffer → ℕ → Buffer
truncate b n =
    if n == 0
    then record b { read_index = b.reserved_prepend_size; write_index = b.reserved_prepend_size }
    else (if ltb (add_size b.read_index n) b.write_index
        then record b { write_index = add_size b.read_index n }
        else b)

unfoldable pub reset : Buffer → Buffer
unfolding truncate
reset b = truncate b 0

unfoldable pub skip : Buffer → ℕ → Outcome Buffer
unfolding length_of reset
skip b n = do
  l ← length_of b
  ok (if ltb n l then record b { read_index = add_size b.read_index n } else reset b)

unfoldable pub retrieve : Buffer → ℕ → Outcome Buffer
unfolding skip
retrieve b n = skip b n

-- The new storage of the growing branch of `grow`.
pub grow_capacity : Buffer → ℕ → Outcome Buffer
unfolding length_of
grow_capacity b len = do
  let n = add_size (b.capacity * 2 % size_mod) len
  m ← length_of b
  ok (record b {
    buffer = blit (fresh n) b.reserved_prepend_size (bytes_at_data b m);
    capacity = n;
    read_index = b.reserved_prepend_size;
    write_index = add_size m b.reserved_prepend_size;
  })

-- The other branch moves the readable bytes to the front.
pub move_to_front : Buffer → ℕ → Outcome Buffer
unfolding length_of writable_bytes
move_to_front b len = do
  assert (ltb b.reserved_prepend_size b.read_index)
  readable ← length_of b
  let b' : Buffer = record b {
    buffer = blit b.buffer b.reserved_prepend_size (bytes_at_data b readable);
    read_index = b.reserved_prepend_size;
    write_index = add_size b.reserved_prepend_size readable;
  }
  readable' ← length_of b'
  assert (readable == readable')
  w ← writable_bytes b'
  assert (leb len w)
  ok b'

pub grow : Buffer → ℕ → Outcome Buffer
grow b len = do
  w ← writable_bytes b
  if ltb (add_size w (prependable_bytes b)) (add_size len b.reserved_prepend_size)
      then grow_capacity b len
      else move_to_front b len

unfoldable pub reserve : Buffer → ℕ → Outcome Buffer
reserve b len =
    if leb (add_size len b.reserved_prepend_size) b.capacity
    then ok b
    else grow b (add_size len b.reserved_prepend_size)

unfoldable pub ensure_writable_bytes : Buffer → ℕ → Outcome Buffer
ensure_writable_bytes b len = do
  w ← writable_bytes b
  b' ← if ltb w len then grow b len else ok b
  w' ← writable_bytes b'
  assert (leb len w')
  ok b'

-- `Write(d, len)` with the `len` bytes of `d`; the `Append`s of bytes are the same.
unfoldable pub write : Buffer → List ℕ → Outcome Buffer
write b d = do
  b' ← ensure_writable_bytes b (length d)
  assert (leb (add_size b'.write_index (length d)) b'.capacity)
  ok (record b' {
    buffer = blit b'.buffer b'.write_index d;
    write_index = add_size b'.write_index (length d);
  })

-- An `intN_t` is its bit pattern. `htonl` and `htons` store the most significant byte first; the
-- 64-bit swap is the source's own, stored by a little-endian host.
unfoldable pub append_int64 : Buffer → ℕ → Outcome Buffer
append_int64 b x = write b (le_bytes 8 (bswap64 x))

unfoldable pub append_int32 : Buffer → ℕ → Outcome Buffer
append_int32 b x = write b (be_bytes 4 x)

unfoldable pub append_int16 : Buffer → ℕ → Outcome Buffer
append_int16 b x = write b (be_bytes 2 x)

unfoldable pub append_int8 : Buffer → ℕ → Outcome Buffer
append_int8 b x = write b (be_bytes 1 x)

unfoldable pub prepend : Buffer → List ℕ → Outcome Buffer
prepend b d = do
  assert (leb (length d) (prependable_bytes b))
  ok (record b {
    read_index = b.read_index - length d;
    buffer = blit b.buffer (b.read_index - length d) d;
  })

unfoldable pub prepend_int64 : Buffer → ℕ → Outcome Buffer
prepend_int64 b x = prepend b (le_bytes 8 (bswap64 x))

unfoldable pub prepend_int32 : Buffer → ℕ → Outcome Buffer
prepend_int32 b x = prepend b (be_bytes 4 x)

unfoldable pub prepend_int16 : Buffer → ℕ → Outcome Buffer
prepend_int16 b x = prepend b (be_bytes 2 x)

unfoldable pub prepend_int8 : Buffer → ℕ → Outcome Buffer
prepend_int8 b x = prepend b (be_bytes 1 x)

unfoldable pub unwrite_bytes : Buffer → ℕ → Outcome Buffer
unwrite_bytes b n = do
  l ← length_of b
  assert (leb n l)
  ok (record b { write_index = sub_size b.write_index n })

unfoldable pub write_bytes : Buffer → ℕ → Outcome Buffer
write_bytes b n = do
  w ← writable_bytes b
  assert (leb n w)
  ok (record b { write_index = add_size b.write_index n })

-- The code that fills the storage from `WriteBegin()` on, as `SerializeToArray` does.
unfoldable pub fill_at_write_begin : Buffer → List ℕ → Buffer
fill_at_write_begin b d = record b { buffer = blit b.buffer b.write_index d }

unfoldable pub to_text : Buffer → Outcome Buffer
to_text b = do b' ← append_int8 b 0; unwrite_bytes b' 1
