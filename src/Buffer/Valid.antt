-- ===== src/Buffer/Valid.antt =====
-- The representation invariant of the buffer, and the bytes that it holds.
use coffee_chat_desktop.Prelude.{
  ℕ, ◌+◌, ◌-◌, ◌≤◌, ◌<◌, ◌≡◌, List, [], length, size_mod, ok, Returns, arith, length-replicate,
}
use coffee_chat_desktop.Prelude.Memory.{window, length-window}
use coffee_chat_desktop.Buffer.{Buffer, create, length_of, writable_bytes}

-- The indices are in order and lie in the storage.
pub record IsValid (b : Buffer) : Type 0 where
  pub storage : length b.buffer ≡ b.capacity
  pub order : b.read_index ≤ b.write_index
  pub fits : b.write_index ≤ b.capacity
  pub prepend_fits : b.reserved_prepend_size ≤ b.capacity
  pub small : b.capacity < size_mod

-- The unread bytes, oldest first: what a reader of the buffer sees.
abbrev pub contents : Buffer → List ℕ
contents b = window b.buffer b.read_index (b.write_index - b.read_index)

-- The room behind the unread bytes.
abbrev pub room : Buffer → ℕ
room b = b.capacity - b.write_index

pub length-contents : (b : Buffer) → IsValid b → length (contents b) ≡ b.write_index - b.read_index
length-contents b v =
    length-window b.buffer b.read_index (b.write_index - b.read_index) (omega (arith, v.storage))

pub length_of_lem : (b : Buffer) → IsValid b → length_of b ≡ ok (length (contents b))
unfolding length_of
length_of_lem b v = ground (arith, length-contents b v)

pub writable_bytes_lem : (b : Buffer) → IsValid b → writable_bytes b ≡ ok (room b)
unfolding writable_bytes
writable_bytes_lem b v = ground arith

-- A new buffer passes the asserts of its constructor, and is valid and empty with the room that was
-- asked for, as long as its size is a `size_t`.
pub create_lem :
    (initial reserved : ℕ)
    → reserved + initial < size_mod
    → Returns (create initial reserved) (λ b.
      IsValid b
      × (contents b ≡ [])
      × (room b ≡ initial)
      × (b.reserved_prepend_size ≡ reserved)
      × (b.read_index ≡ reserved)
      × (b.capacity ≡ reserved + initial))
unfolding create
create_lem initial reserved h = ground (arith, length-replicate {A = ℕ} (reserved + initial) 0)
