-- ===== src/Buffer/Grow.antt =====
-- Making room: `grow`, `Reserve` and `EnsureWritableBytes` of mac/chatkit/cim/base/buffer.h.
use coffee_chat_desktop.Prelude.{
  refl, leb→le, add_size, ℕ, ◌+◌, ◌-◌, ◌*◌, ◌≤◌, ◌<◌, ◌≡◌, inl, inr, size_mod, ltb, leb, Bool-cases,
  ltb→lt, Returns, Returns-bind, Returns-mono, arith, length-replicate,
}
use coffee_chat_desktop.Prelude.Memory.{window, length-blit, window-blit_self}
use coffee_chat_desktop.Buffer.{
  Buffer, fresh, length_of, writable_bytes, grow_capacity, move_to_front, grow, reserve,
  ensure_writable_bytes,
}
use coffee_chat_desktop.Buffer.Valid.{IsValid, contents, room, length-contents, writable_bytes_lem}

-- The buffer `b'` holds what `b` held, and has room for `len` bytes more.
pub record MakesRoom (b : Buffer) (len : ℕ) (b' : Buffer) : Type 0 where
  pub valid : IsValid b'
  pub kept : contents b' ≡ contents b
  pub enough : len ≤ room b'
  pub reserved : b'.reserved_prepend_size ≡ b.reserved_prepend_size
  pub bounded : b'.capacity ≤ b.capacity * 2 + len

grow_capacity_lem :
    (b : Buffer) (len : ℕ)
    → IsValid b
    → b.capacity * 2 + len < size_mod
    → Returns (grow_capacity b len) (MakesRoom b len)
unfolding grow_capacity length_of
grow_capacity_lem b len v h =
    let k = b.write_index - b.read_index in
    let n = b.capacity * 2 + len in
    let here = window b.buffer b.read_index k in
    ground (
      arith,
      length-contents b v,
      length-replicate {A = ℕ} n 0,
      length-blit (fresh n) b.reserved_prepend_size here,
      window-blit_self (fresh n) b.reserved_prepend_size here,
    )

move_to_front_lem :
    (b : Buffer) (len : ℕ)
    → IsValid b
    → b.reserved_prepend_size < b.read_index
    → len + b.reserved_prepend_size ≤ room b + b.read_index
    → Returns (move_to_front b len) (MakesRoom b len)
unfolding move_to_front length_of writable_bytes
move_to_front_lem b len v g h =
    let k = b.write_index - b.read_index in
    let here = window b.buffer b.read_index k in
    ground (
      arith,
      length-contents b v,
      length-blit b.buffer b.reserved_prepend_size here,
      window-blit_self b.buffer b.reserved_prepend_size here,
    )

grow_lem :
    (b : Buffer) (len : ℕ)
    → IsValid b
    → room b < len
    → b.capacity * 2 + len < size_mod
    → Returns (grow b len) (MakesRoom b len)
unfolding grow
grow_lem b len v lack h =
    rw (writable_bytes_lem b v)
      (ground (arith, grow_capacity_lem b len v h, move_to_front_lem b len v))

-- `EnsureWritableBytes` makes room in a valid buffer for any number of bytes, as long as the
-- size stays a `size_t`: it keeps what the buffer holds, moved or copied, and none of its
-- asserts fails.
pub ensure_writable_bytes_lem :
    (b : Buffer) (len : ℕ)
    → IsValid b
    → b.capacity * 2 + len < size_mod
    → Returns (ensure_writable_bytes b len) (MakesRoom b len)
unfolding ensure_writable_bytes
ensure_writable_bytes_lem b len v h =
    rw (writable_bytes_lem b v) (elim (Bool-cases (ltb (room b) len)) [
      | inl lack ↦ rw lack (
          Returns-bind (MakesRoom b len) (MakesRoom b len) (grow b len) _
            (grow_lem b len v (ltb→lt _ _ lack) h)
            (λ b' m. rw (writable_bytes_lem b' m.valid) (ground arith)))
      | inr enough ↦ rw (enough, writable_bytes_lem b v) (ground arith)
    ])

-- `Reserve` of a valid buffer keeps what the buffer holds and makes the capacity at least `len`
-- and the reserved front, as long as the size stays a `size_t`; none of the asserts of `grow`
-- fails.
pub reserve_lem :
    (b : Buffer) (len : ℕ)
    → IsValid b
    → b.capacity * 2 + len + b.reserved_prepend_size < size_mod
    → Returns (reserve b len) (λ b'.
      IsValid b' × (contents b' ≡ contents b) × (len + b.reserved_prepend_size ≤ b'.capacity))
unfolding reserve
reserve_lem b len v h =
    let n = len + b.reserved_prepend_size in
    let e : add_size len b.reserved_prepend_size ≡ n = omega arith in
    elim (Bool-cases (leb n b.capacity)) [
      | inl enough ↦ rw (e, enough) (v, refl, leb→le _ _ enough)
      | inr short ↦
          rw (e, short)
            (Returns-mono (MakesRoom b n) _ (grow b n) (grow_lem b n v (ground arith) (omega arith))
              (λ b' m. (m.valid, m.kept, omega (arith, m.enough, m.valid.fits))))
    ]
