-- ===== src/Buffer/Integers.antt =====
-- The integers of mac/chatkit/cim/base/buffer.h: what is appended or prepended in network order is
-- read back.
use coffee_chat_desktop.Prelude.{
  ℕ, ◌+◌, ◌-◌, ◌*◌, ◌^◌, ◌≤◌, ◌<◌, ◌≡◌, refl, sym, ap, ◌∙◌, List, [], ◌++◌, length, take, drop,
  size_mod, Returns, Returns-bind, Returns-mono, ◌>>=◌, arith, length-append, append-nil,
}
use coffee_chat_desktop.Prelude.Memory.{take-window, take-append_eq, drop-append_eq}
use coffee_chat_desktop.Buffer.{
  Buffer, skip, write, prepend, append_int64, prepend_int32, bytes_at_data,
}
use coffee_chat_desktop.Buffer.Bytes.{
  be_bytes, of_be, le_bytes, of_le, bswap64, of_be-be_bytes2, of_be-be_bytes4, le_bytes-bswap64,
  bswap64-of_le,
}
use coffee_chat_desktop.Buffer.Read.{
  peek_int64, peek_int32, peek_int16, read_int64, read_int32, read_int16,
}
use coffee_chat_desktop.Buffer.Valid.{IsValid, contents, length-contents, length_of_lem}
use coffee_chat_desktop.Buffer.Contents.{Holds, write_lem, skip_lem, prepend_lem}

-- The result of a read: the value, and the buffer that holds what is left.
abbrev pub Reads : ℕ → List ℕ → ℕ × Buffer → Type 0
Reads x rest r = (r.0 ≡ x) × Holds rest r.1

-- The first `k` bytes of the storage behind the read index are the first `k` bytes that are held.
pub bytes_at_data-contents :
    (b : Buffer) (d rest : List ℕ)
    → IsValid b
    → contents b ≡ d ++ rest
    → bytes_at_data b (length d) ≡ d
bytes_at_data-contents b d rest v e =
    sym (
      take-window b.buffer b.read_index (length d) (b.write_index - b.read_index)
        (omega (arith, length-contents b v, ap length e, length-append d rest))
        (omega (arith, v.storage, v.order, v.fits)))
    ∙ ap (take (length d)) e
    ∙ take-append_eq (length d) d rest refl

module _ (b : Buffer) (v : IsValid b) where
  pub skip-append :
      (d rest : List ℕ)
      → contents b ≡ d ++ rest
      → Returns (skip b (length d)) (λ b'. Holds rest b' × (b'.capacity ≡ b.capacity))
  skip-append d rest e =
      let dropped : drop (length d) (contents b) ≡ rest =
        ap (drop (length d)) e ∙ drop-append_eq (length d) d rest refl in
      Returns-mono _ _ (skip b (length d)) (skip_lem b (length d) v)
        (λ b' h. (record { valid = h.0.valid; held = h.0.held ∙ dropped }, h.1))

  length-contents_ge : (d rest : List ℕ) → contents b ≡ d ++ rest → length d ≤ length (contents b)
  length-contents_ge d rest e = omega (arith, ap length e, length-append d rest)

  pub read_int64_lem :
      (x : ℕ) (rest : List ℕ)
      → x < 2 ^ 64
      → contents b ≡ be_bytes 8 x ++ rest
      → Returns (read_int64 b) (Reads x rest)
  unfolding read_int64 peek_int64
  read_int64_lem x rest h e =
      let got : bswap64 (of_le (bytes_at_data b 8)) ≡ x =
        ap (λ l. bswap64 (of_le l)) (bytes_at_data-contents b (be_bytes 8 x) rest v e)
        ∙ bswap64-of_le x h in
      ground (
        arith,
        length_of_lem b v,
        length-contents_ge (be_bytes 8 x) rest e,
        got,
        skip-append (be_bytes 8 x) rest e,
      )

  pub read_int32_lem :
      (x : ℕ) (rest : List ℕ)
      → x < 2 ^ 32
      → contents b ≡ be_bytes 4 x ++ rest
      → Returns (read_int32 b) (λ r. Reads x rest r × (r.1.capacity ≡ b.capacity))
  unfolding read_int32 peek_int32
  read_int32_lem x rest h e =
      let got : of_be (bytes_at_data b 4) ≡ x =
        ap of_be (bytes_at_data-contents b (be_bytes 4 x) rest v e) ∙ of_be-be_bytes4 x h in
      ground (
        arith,
        length_of_lem b v,
        length-contents_ge (be_bytes 4 x) rest e,
        got,
        skip-append (be_bytes 4 x) rest e,
      )

  pub read_int16_lem :
      (x : ℕ) (rest : List ℕ)
      → x < 2 ^ 16
      → contents b ≡ be_bytes 2 x ++ rest
      → Returns (read_int16 b) (λ r. Reads x rest r × (r.1.capacity ≡ b.capacity))
  unfolding read_int16 peek_int16
  read_int16_lem x rest h e =
      let got : of_be (bytes_at_data b 2) ≡ x =
        ap of_be (bytes_at_data-contents b (be_bytes 2 x) rest v e) ∙ of_be-be_bytes2 x h in
      ground (
        arith,
        length_of_lem b v,
        length-contents_ge (be_bytes 2 x) rest e,
        got,
        skip-append (be_bytes 2 x) rest e,
      )

-- An `int64_t` appended to a valid buffer, whose size stays a `size_t`, is read back once the
-- bytes in front of it are skipped, and nothing is left behind it.
pub read_int64-append_int64 :
    (b : Buffer) (x : ℕ)
    → IsValid b
    → x < 2 ^ 64
    → b.capacity * 2 + 8 < size_mod
    → Returns
        (do b' ← append_int64 b x; b'' ← skip b' (length (contents b)); read_int64 b'')
        (Reads x [])
unfolding append_int64
read_int64-append_int64 b x v h k =
    let d : List ℕ = le_bytes 8 (bswap64 x) in
    Returns-bind _ (Reads x []) (write b d) _ (write_lem b d v k) (λ b' w.
      Returns-bind _ (Reads x []) (skip b' (length (contents b))) _
        (skip-append b' w.0.valid (contents b) d w.0.held)
        (λ b'' s.
          read_int64_lem b'' s.0.valid x [] h
            (s.0.held ∙ le_bytes-bswap64 x ∙ sym (append-nil (be_bytes 8 x)))))

-- An `int32_t` prepended to a valid buffer with room in front is read back first, and leaves the
-- buffer holding what it held.
pub read_int32-prepend_int32 :
    (b : Buffer) (x : ℕ)
    → IsValid b
    → x < 2 ^ 32
    → 4 ≤ b.read_index
    → Returns (do b' ← prepend_int32 b x; read_int32 b') (Reads x (contents b))
unfolding prepend_int32
read_int32-prepend_int32 b x v h k =
    Returns-bind _ (Reads x (contents b)) (prepend b (be_bytes 4 x)) _
      (prepend_lem b (be_bytes 4 x) v k)
      (λ b' w.
        Returns-mono _ (Reads x (contents b)) (read_int32 b')
          (read_int32_lem b' w.0.valid x (contents b) h w.0.held) (λ r q. q.0))
