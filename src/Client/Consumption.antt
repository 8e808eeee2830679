-- ===== src/Client/Consumption.antt =====
-- The reads of `Client::onMessage` of mac/chatkit/cim/core/client.cpp take bytes out of the buffer.
use coffee_chat_desktop.Prelude.{
  ℕ, ◌+◌, ◌-◌, ◌≤◌, ◌≡◌, length, arith, Outcome, Returns, Safely, Safely-bind, ◌>>=◌, length-drop,
}
use coffee_chat_desktop.Buffer.{Buffer, skip}
use coffee_chat_desktop.Buffer.Read.{read_int32, read_int16, peek_int32, peek_int16}
use coffee_chat_desktop.Buffer.Valid.{IsValid, contents, length_of_lem}
use coffee_chat_desktop.Buffer.Contents.{skip_lem}
use coffee_chat_desktop.Client.{ImHeader}
use coffee_chat_desktop.Client.Receive.{read_fields}

-- A valid buffer that holds at least `k` bytes less than `b`.
pub record Shrinks (k : ℕ) (b b' : Buffer) : Type 0 where
  pub valid : IsValid b'
  pub less : length (contents b') + k ≤ length (contents b)

skip_shrinks :
    (b : Buffer) (n : ℕ)
    → IsValid b
    → Returns (skip b n) (λ b'. IsValid b' × (length (contents b') ≡ length (contents b) - n))
skip_shrinks b n v = ground (arith, skip_lem b n v, length-drop n (contents b))

pub skip_safely : (b : Buffer) (n : ℕ) → IsValid b → Safely (skip b n) (Shrinks 0 b)
skip_safely b n v = ground (arith, skip_shrinks b n v)

read_int16-Shrinks : (b : Buffer) → IsValid b → Safely (read_int16 b) (λ r. Shrinks 2 b r.1)
unfolding read_int16 peek_int16
read_int16-Shrinks b v = ground (arith, length_of_lem b v, skip_shrinks b 2 v)

pub read_int32-Shrinks : (b : Buffer) → IsValid b → Safely (read_int32 b) (λ r. Shrinks 4 b r.1)
unfolding read_int32 peek_int32
read_int32-Shrinks b v = ground (arith, length_of_lem b v, skip_shrinks b 4 v)

-- Code that goes on with the next 16-bit field of what was `b` at first.
next_field {ℓ} :
    {B : Type ℓ} (Q : B → Type 0) (f : ℕ × Buffer → Outcome B) (k : ℕ) (b b1 : Buffer)
    → Shrinks k b b1
    → ((x : ℕ) (b2 : Buffer) → Shrinks (k + 2) b b2 → Safely (f (x, b2)) Q)
    → Safely (read_int16 b1 >>= f) Q
next_field Q f k b b1 s go =
    Safely-bind (λ r. Shrinks 2 b1 r.1) Q (read_int16 b1) f (read_int16-Shrinks b1 s.valid)
      (λ r t. go r.0 r.1 (record { valid = t.valid; less = omega (arith, s.less, t.less) }))

pub Shrinks-0 : (b : Buffer) → IsValid b → Shrinks 0 b b
Shrinks-0 b v = record { valid = v; less = omega arith }

pub read_fields-Shrinks :
    (len : ℕ) (b : Buffer) → IsValid b → Safely (read_fields len b) (λ r. Shrinks 12 b r.1)
unfolding read_fields
read_fields-Shrinks len b v =
    let goal : ImHeader × Buffer → Type 0 = λ r. Shrinks 12 b r.1 in
    next_field goal _ 0 b b (Shrinks-0 b v) (λ x b1 s1. next_field goal _ 2 b b1 s1 (λ x b2 s2.
      next_field goal _ 4 b b2 s2 (λ x b3 s3. next_field goal _ 6 b b3 s3 (λ x b4 s4.
        next_field goal _ 8 b b4 s4 (λ x b5 s5. next_field goal _ 10 b b5 s5 (λ x b6 s6. s6))))))
