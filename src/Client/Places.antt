-- ===== src/Client/Places.antt =====
-- Where the reads of `Client::onMessage` of mac/chatkit/cim/core/client.cpp stand in the bytes of a
-- message.
use coffee_chat_desktop.Prelude.{
  ℕ, ◌+◌, ◌≡◌, sym, ap, ◌∙◌, List, length, take, drop, take-append-drop, length-take, Bool-cases,
  inl, inr, drop-drop, arith, Outcome, Returns-eq, Safely, Safely-bind, ◌>>=◌, subst, leb,
}
use coffee_chat_desktop.Buffer.{Buffer, skip, bytes_at_data}
use coffee_chat_desktop.Buffer.Bytes.{of_be}
use coffee_chat_desktop.Buffer.Integers.{bytes_at_data-contents}
use coffee_chat_desktop.Buffer.Read.{read_int16, read_int32, peek_int16, peek_int32}
use coffee_chat_desktop.Buffer.Valid.{IsValid, contents, length_of_lem}
use coffee_chat_desktop.Buffer.Contents.{Holds, skip_lem}
use coffee_chat_desktop.Client.{ImHeader, header_size}
use coffee_chat_desktop.Client.Receive.{read_fields}

-- A valid buffer that holds what is left of `bytes` behind `n` of them.
pub record At (bytes : List ℕ) (n : ℕ) (b : Buffer) : Type 0 where
  pub valid : IsValid b
  pub left : contents b ≡ drop n bytes

abbrev pub Rest : List ℕ → Buffer → Type 0
Rest bytes b = (n : ℕ) × At bytes n b

module _ (bytes : List ℕ) where
  pub skip-At : (n k : ℕ) (b : Buffer) → At bytes n b → Safely (skip b k) (At bytes (n + k))
  skip-At n k b r =
      let (b', e, h) =
        Returns-eq (λ b'. Holds (drop k (contents b)) b' × (b'.capacity ≡ b.capacity)) _
          (skip_lem b k r.valid) in
      rw e
        (record { valid = h.0.valid; left = h.0.held ∙ ap (drop k) r.left ∙ drop-drop k n bytes })

  -- The next 16-bit field.
  abbrev Field : ℕ → ℕ × Buffer → Type 0
  Field n r = At bytes (n + 2) r.1 × (r.0 ≡ of_be (take 2 (drop n bytes)))

  read_int16-Field : (n : ℕ) (b : Buffer) → At bytes n b → Safely (read_int16 b) (Field n)
  unfolding read_int16 peek_int16
  read_int16-Field n b r = elim (Bool-cases (leb 2 (length (contents b)))) [
    | inr e ↦ rw (length_of_lem b r.valid, e) tt
    | inl e ↦
        let two : length (take 2 (contents b)) ≡ 2 =
          ground (arith, e, length-take 2 (contents b)) in
        let got : bytes_at_data b 2 ≡ take 2 (drop n bytes) =
          subst (λ k. bytes_at_data b k ≡ take 2 (contents b)) two
            (bytes_at_data-contents b (take 2 (contents b)) (drop 2 (contents b)) r.valid
              (sym (take-append-drop 2 (contents b))))
          ∙ ap (take 2) r.left in
        rw (length_of_lem b r.valid, e)
          (Safely-bind (At bytes (n + 2)) (Field n) (skip b 2) _ (skip-At n 2 b r)
            (λ b' h. (h, ap of_be got)))
  ]

  pub read_int32-At :
      (n : ℕ) (b : Buffer) → At bytes n b → Safely (read_int32 b) (λ r. At bytes (n + 4) r.1)
  unfolding read_int32 peek_int32
  read_int32-At n b r = ground (arith, length_of_lem b r.valid, skip-At n 4 b r)

  -- Code that goes on with the next 16-bit field.
  next_field {ℓ} :
      {B : Type ℓ} (Q : B → Type 0) (f : ℕ × Buffer → Outcome B) (n : ℕ) (b : Buffer)
      → At bytes n b
      → ((x : ℕ) (b' : Buffer)
          → At bytes (n + 2) b'
          → x ≡ of_be (take 2 (drop n bytes))
          → Safely (f (x, b')) Q)
      → Safely (read_int16 b >>= f) Q
  next_field Q f n b r go =
      Safely-bind (Field n) Q (read_int16 b) f (read_int16-Field n b r) (λ q t. go q.0 q.1 t.0 t.1)

  -- The header behind its length, and the place of its command.
  abbrev pub HeaderAt : ℕ → ImHeader × Buffer → Type 0
  HeaderAt n q = At bytes (n + header_size) q.1 × (q.0.cmd ≡ of_be (take 2 (drop (n + 10) bytes)))

  pub read_fields-HeaderAt :
      (len n : ℕ) (b : Buffer) → At bytes (n + 4) b → Safely (read_fields len b) (HeaderAt n)
  unfolding read_fields
  read_fields-HeaderAt len n b r =
      let goal : ImHeader × Buffer → Type 0 = HeaderAt n in
      next_field goal _ (n + 4) b r (λ x b1 s1 e1.
        next_field goal _ (n + 4 + 2) b1 s1 (λ x b2 s2 e2.
          next_field goal _ (n + 4 + 2 + 2) b2 s2 (λ x b3 s3 e3.
            next_field goal _ (n + 4 + 2 + 2 + 2) b3 s3 (λ cmd b4 s4 e4.
              next_field goal _ (n + 4 + 2 + 2 + 2 + 2) b4 s4 (λ x b5 s5 e5.
                next_field goal _ (n + 4 + 2 + 2 + 2 + 2 + 2) b5 s5 (λ x b6 s6 e6. (
                  subst (λ k. At bytes k b6) (omega arith) s6,
                  e4 ∙ ap (λ k. of_be (take 2 (drop k bytes))) (omega arith),
                )))))))
