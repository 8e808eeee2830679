-- ===== src/StringUtil/RoundTrip.antt =====
-- The conversions of mac/chatkit/cim/base/util/string_util.cpp undo one another.
use coffee_chat_desktop.Prelude.{
  ℕ, zero, suc, ◌+◌, ◌-◌, ◌*◌, ◌≤◌, ◌<◌, ◌≡◌, refl, sym, ap, ◌∙◌, List, [], ◌∷◌, ◌++◌, some, arith,
  length, All, Option-cases, inl, inr, ◌↔◌, subst,
}
use coffee_chat_desktop.StringUtil.{cons_to, lead, decode, utf8_to_utf16, encode_point, ws2s}
use coffee_chat_desktop.StringUtil.Points.{
  Encodes, one, two, three, four, lead_zero, lead_one, lead_small, lead_two, Encodes-encode_point,
  encode_point-Encodes,
}

-- What follows a first byte is read one by one.
decode_last :
    (lo hi acc b : ℕ) (rest : List ℕ)
    → lo ≤ b
    → b ≤ hi
    → decode 1 lo hi acc (b ∷ rest) ≡ cons_to (acc * 64 + (b - 128)) (decode 0 0 0 0 rest)
unfolding decode
decode_last lo hi acc b rest l h = ground arith

decode_inner :
    (need lo hi acc b : ℕ) (rest : List ℕ)
    → lo ≤ b
    → b ≤ hi
    → decode (suc (suc need)) lo hi acc (b ∷ rest)
      ≡ decode (suc need) 128 191 (acc * 64 + (b - 128)) rest
unfolding decode
decode_inner need lo hi acc b rest l h = ground arith

decode_first :
    (a need lo hi acc : ℕ) (rest : List ℕ)
    → lead a ≡ some (suc need, lo, hi, acc)
    → decode 0 0 0 0 (a ∷ rest) ≡ decode (suc need) lo hi acc rest
unfolding decode
decode_first a need lo hi acc rest e = rw (e, decode) refl

decode_single :
    (a lo hi acc : ℕ) (rest : List ℕ)
    → lead a ≡ some (0, lo, hi, acc)
    → decode 0 0 0 0 (a ∷ rest) ≡ cons_to acc (decode 0 0 0 0 rest)
unfolding decode
decode_single a lo hi acc rest e = rw (e, decode) refl

decode-Encodes :
    (c : ℕ) (front rest : List ℕ)
    → Encodes c front
    → decode 0 0 0 0 (front ++ rest) ≡ cons_to c (decode 0 0 0 0 rest)
unfolding decode lead
decode-Encodes c front rest (one h e) = rw e (ground arith)
decode-Encodes c front rest (two a b la ha lb hb v e) =
    rw (e, decode_first a 0 128 191 (a - 192) (b ∷ rest) (lead_two a la ha))
      (decode_last 128 191 (a - 192) b rest lb (omega arith) ∙ rw v refl)
decode-Encodes c front rest (three a lo hi acc b d l lb hb ld hd v e) =
    rw e refl
    ∙ decode_first a 1 lo hi acc (b ∷ d ∷ rest) l
    ∙ decode_inner 0 lo hi acc b (d ∷ rest) lb hb
    ∙ decode_last 128 191 (acc * 64 + (b - 128)) d rest ld (omega arith)
    ∙ rw v refl
decode-Encodes c front rest (four a lo hi acc b d f l lb hb ld hd lf hf v e) =
    rw e refl
    ∙ decode_first a 2 lo hi acc (b ∷ d ∷ f ∷ rest) l
    ∙ decode_inner 1 lo hi acc b (d ∷ f ∷ rest) lb hb
    ∙ decode_inner 0 128 191 (acc * 64 + (b - 128)) d (f ∷ rest) ld (omega arith)
    ∙ decode_last 128 191 ((acc * 64 + (b - 128)) * 64 + (d - 128)) f rest lf (omega arith)
    ∙ rw v refl

-- What a text that is read has in front.
decode_last_back :
    (lo hi acc : ℕ) (bytes points : List ℕ)
    → decode 1 lo hi acc bytes ≡ some points
    → (b : ℕ) × (rest : List ℕ) × (left : List ℕ) × (bytes ≡ b ∷ rest)
      × (lo ≤ b)
      × (b ≤ hi)
      × (points ≡ (acc * 64 + (b - 128)) ∷ left)
      × (decode 0 0 0 0 rest ≡ some left)
unfolding decode
decode_last_back lo hi acc [] points h = absurd (ground (arith, h))
decode_last_back lo hi acc (b ∷ rest) points h = elim (Option-cases (decode 0 0 0 0 rest)) [
  | inl e ↦ absurd (ground (arith, h, e))
  | inr (left, e) ↦
      (b, rest, left, refl, ground (arith, h), ground (arith, h), ground (arith, h, e), e)
]

decode_inner_back :
    (need lo hi acc : ℕ) (bytes points : List ℕ)
    → decode (suc (suc need)) lo hi acc bytes ≡ some points
    → (b : ℕ) × (rest : List ℕ) × (bytes ≡ b ∷ rest)
      × (lo ≤ b)
      × (b ≤ hi)
      × (decode (suc need) 128 191 (acc * 64 + (b - 128)) rest ≡ some points)
unfolding decode
decode_inner_back need lo hi acc [] points h = absurd (ground (arith, h))
decode_inner_back need lo hi acc (b ∷ rest) points h =
    (b, rest, refl, ground (arith, h), ground (arith, h), ground (arith, h))

-- A text that starts with the bytes of a code point, and what is read from it.
abbrev StartsWith : List ℕ → List ℕ → Type 0
StartsWith bytes points =
    (c : ℕ) × (front : List ℕ) × (rest : List ℕ) × (left : List ℕ) × (bytes ≡ front ++ rest)
    × (points ≡ c ∷ left)
    × Encodes c front
    × (decode 0 0 0 0 rest ≡ some left)
    × (length rest < length bytes)

decode-lead_back :
    (a need lo hi acc : ℕ) (rest points : List ℕ)
    → lead a ≡ some (need, lo, hi, acc)
    → decode 0 0 0 0 (a ∷ rest) ≡ some points
    → StartsWith (a ∷ rest) points
decode-lead_back a zero lo hi acc rest points l h =
    let (small, same) = lead_zero a lo hi acc l in
    let now = sym (decode_single a lo hi acc rest l) ∙ h in
    elim (Option-cases (decode 0 0 0 0 rest)) [
      | inl e ↦ absurd (ground (arith, now, e))
      | inr (left, e) ↦ (
        a,
        a ∷ [],
        rest,
        left,
        refl,
        ground (arith, now, e, same),
        one small refl,
        e,
        omega arith,
      )
    ]
decode-lead_back a (suc zero) lo hi acc rest points l h =
    let (b, rest', left, er, lb, hb, ep, e) =
      decode_last_back lo hi acc rest points (sym (decode_first a 0 lo hi acc rest l) ∙ h) in
    let (la, ha, el, eh, ea) = lead_one a lo hi acc l in
    (
      acc * 64 + (b - 128),
      a ∷ b ∷ [],
      rest',
      left,
      ap (◌∷◌ a) er,
      ep,
      two a b la ha (omega (arith, lb, el)) (omega (arith, hb, eh)) (rw ea refl) refl,
      e,
      omega (arith, ap length er),
    )
decode-lead_back a (suc (suc zero)) lo hi acc rest points l h =
    let (b, rest1, e1, lb, hb, h1) =
      decode_inner_back 0 lo hi acc rest points (sym (decode_first a 1 lo hi acc rest l) ∙ h) in
    let (d, rest2, left, e2, ld, hd, ep, e) =
      decode_last_back 128 191 (acc * 64 + (b - 128)) rest1 points h1 in
    (
      (acc * 64 + (b - 128)) * 64 + (d - 128),
      a ∷ b ∷ d ∷ [],
      rest2,
      left,
      ap (◌∷◌ a) (e1 ∙ ap (◌∷◌ b) e2),
      ep,
      three a lo hi acc b d l lb hb ld (omega arith) refl refl,
      e,
      omega (arith, ap length e1, ap length e2),
    )
decode-lead_back a (suc (suc (suc zero))) lo hi acc rest points l h =
    let (b, rest1, e1, lb, hb, h1) =
      decode_inner_back 1 lo hi acc rest points (sym (decode_first a 2 lo hi acc rest l) ∙ h) in
    let (d, rest2, e2, ld, hd, h2) =
      decode_inner_back 0 128 191 (acc * 64 + (b - 128)) rest1 points h1 in
    let (f, rest3, left, e3, lf, hf, ep, e) =
      decode_last_back 128 191 ((acc * 64 + (b - 128)) * 64 + (d - 128)) rest2 points h2 in
    (
      ((acc * 64 + (b - 128)) * 64 + (d - 128)) * 64 + (f - 128),
      a ∷ b ∷ d ∷ f ∷ [],
      rest3,
      left,
      ap (◌∷◌ a) (e1 ∙ ap (◌∷◌ b) (e2 ∙ ap (◌∷◌ d) e3)),
      ep,
      four a lo hi acc b d f l lb hb ld (omega arith) lf (omega arith) refl refl,
      e,
      omega (arith, ap length e1, ap length e2, ap length e3),
    )
decode-lead_back a (suc (suc (suc (suc need)))) lo hi acc rest points l h =
    absurd (lead_small a need lo hi acc l)

ws2s_cons :
    (c : ℕ) (front rest points : List ℕ)
    → encode_point c ≡ some front
    → ws2s points ≡ some rest
    → ws2s (c ∷ points) ≡ some (front ++ rest)
unfolding ws2s
ws2s_cons c front rest points e er = ground (arith, e, er)

-- A text that is read is what the points are written as.
decode_back :
    (k : ℕ) (bytes points : List ℕ)
    → length bytes < k
    → decode 0 0 0 0 bytes ≡ some points
    → ws2s points ≡ some bytes
unfolding decode ws2s
decode_back zero bytes points h e = absurd (omega (arith, h))
decode_back (suc k) [] points h e = ground (arith, e)
decode_back (suc k) (a ∷ rest) points h e = elim (Option-cases (lead a)) [
  | inl bad ↦ absurd (ground (arith, bad, e))
  | inr ((need, lo, hi, acc), l) ↦
      let (c, front, rest', left, eb, ep, enc, er, smaller) =
        decode-lead_back a need lo hi acc rest points l e in
      ap ws2s ep
      ∙ ws2s_cons c front rest' left (Encodes-encode_point c front enc)
          (decode_back k rest' left (omega (arith, h, smaller)) er)
      ∙ ap some (sym eb)
]

ws2s_back : (points bytes : List ℕ) → ws2s points ≡ some bytes → decode 0 0 0 0 bytes ≡ some points
unfolding ws2s decode
ws2s_back [] bytes e = ground (arith, e)
ws2s_back (c ∷ points) bytes e = elim (Option-cases (encode_point c)) [
  | inl bad ↦ absurd (ground (arith, bad, e))
  | inr (front, ef) ↦ elim (Option-cases (ws2s points)) [
    | inl bad ↦ absurd (ground (arith, bad, ef, e))
    | inr (rest, er) ↦
        subst (λ l. decode 0 0 0 0 l ≡ some (c ∷ points)) {x = front ++ rest} {y = bytes}
          (ground (arith, ef, er, e))
          (decode-Encodes c front rest (encode_point-Encodes c front ef)
            ∙ ap (cons_to c) (ws2s_back points rest er))
  ]
]

-- `UTF8ToUTF16` reads a text as some points exactly when `ws2s` writes these points as this text:
-- what one of them makes, the other takes back, and each throws on all else.
pub utf8_to_utf16_iff :
    (bytes points : List ℕ) → (utf8_to_utf16 bytes ≡ some points) ↔ (ws2s points ≡ some bytes)
unfolding utf8_to_utf16
utf8_to_utf16_iff bytes points =
    (decode_back (suc (length bytes)) bytes points (omega arith), ws2s_back points bytes)

-- A text below 128 in each byte, as all that `strftime` writes, is read as it is.
pub utf8_to_utf16_ascii :
    (bytes : List ℕ) → All (λ c. c < 128) bytes → utf8_to_utf16 bytes ≡ some bytes
unfolding utf8_to_utf16 decode lead
utf8_to_utf16_ascii [] h = refl
utf8_to_utf16_ascii (c ∷ bytes) h = ground (arith, h.0, utf8_to_utf16_ascii bytes h.1)
