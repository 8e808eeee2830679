-- ===== src/StringUtil/Points.antt =====
-- The bytes of one code point, as mac/chatkit/cim/base/util/string_util.cpp has them written and
-- read.
use coffee_chat_desktop.Prelude.{
  ℕ, suc, ◌+◌, ◌-◌, ◌*◌, ◌/◌, ◌%◌, ◌≤◌, ◌<◌, ◌≡◌, refl, List, [], ◌∷◌, some, arith, inl, inr, ◌⊎◌,
  subst, if◌then◌else◌, ◌==◌,
}
use coffee_chat_desktop.StringUtil.{lead, encode_point}

-- The bytes of a code point, by how many they are.
pub data Encodes : ℕ → List ℕ → Type 0 where
  one : {c : ℕ} {front : List ℕ} → c < 128 → front ≡ c ∷ [] → Encodes c front
  two :
      {c : ℕ} {front : List ℕ} (a b : ℕ)
      → 194 ≤ a
      → a < 224
      → 128 ≤ b
      → b < 192
      → c ≡ (a - 192) * 64 + (b - 128)
      → front ≡ a ∷ b ∷ []
      → Encodes c front
  three :
      {c : ℕ} {front : List ℕ} (a lo hi acc b d : ℕ)
      → lead a ≡ some (2, lo, hi, acc)
      → lo ≤ b
      → b ≤ hi
      → 128 ≤ d
      → d < 192
      → c ≡ (acc * 64 + (b - 128)) * 64 + (d - 128)
      → front ≡ a ∷ b ∷ d ∷ []
      → Encodes c front
  four :
      {c : ℕ} {front : List ℕ} (a lo hi acc b d e : ℕ)
      → lead a ≡ some (3, lo, hi, acc)
      → lo ≤ b
      → b ≤ hi
      → 128 ≤ d
      → d < 192
      → 128 ≤ e
      → e < 192
      → c ≡ ((acc * 64 + (b - 128)) * 64 + (d - 128)) * 64 + (e - 128)
      → front ≡ a ∷ b ∷ d ∷ e ∷ []
      → Encodes c front

pub lead_two : (a : ℕ) → 194 ≤ a → a < 224 → lead a ≡ some (1, 128, 191, a - 192)
unfolding lead
lead_two a l h = ground arith

pub lead_zero : (a lo hi acc : ℕ) → lead a ≡ some (0, lo, hi, acc) → (a < 128) × (acc ≡ a)
unfolding lead
lead_zero a lo hi acc h = ground (arith, h)

pub lead_one :
    (a lo hi acc : ℕ)
    → lead a ≡ some (1, lo, hi, acc)
    → (194 ≤ a) × (a < 224) × (lo ≡ 128) × (hi ≡ 191) × (acc ≡ a - 192)
unfolding lead
lead_one a lo hi acc h = ground (arith, h)

pub lead_small :
    (a need lo hi acc : ℕ) → lead a ≡ some (suc (suc (suc (suc need))), lo, hi, acc) → ⊥
unfolding lead
lead_small a need lo hi acc h = ground (arith, h)

pub lead_three :
    (a lo hi acc : ℕ)
    → lead a ≡ some (2, lo, hi, acc)
    → (224 ≤ a)
      × (a < 240)
      × (acc ≡ a - 224)
      × (128 ≤ lo)
      × (hi ≤ 191)
      × ((a ≡ 224) × (lo ≡ 160) ⊎ (224 < a))
      × ((a ≡ 237) × (hi ≡ 159) ⊎ (a < 237) ⊎ (237 < a))
unfolding lead
lead_three a lo hi acc h = ground (arith, h)

pub lead_four :
    (a lo hi acc : ℕ)
    → lead a ≡ some (3, lo, hi, acc)
    → (240 ≤ a)
      × (a < 245)
      × (acc ≡ a - 240)
      × (128 ≤ lo)
      × (hi ≤ 191)
      × ((a ≡ 240) × (lo ≡ 144) ⊎ (240 < a))
      × ((a ≡ 244) × (hi ≡ 143) ⊎ (a < 244))
unfolding lead
lead_four a lo hi acc h = ground (arith, h)

-- The other way, with the bounds that the first byte sets.
lead_three_of :
    (a b : ℕ)
    → 224 ≤ a
    → a < 240
    → 128 ≤ b
    → b < 192
    → 160 ≤ (a - 224) * 64 + b
    → (a ≡ 237) × (b < 160) ⊎ (a < 237) ⊎ (237 < a)
    → (lo : ℕ) × (hi : ℕ) × (lead a ≡ some (2, lo, hi, a - 224)) × (lo ≤ b) × (b ≤ hi)
unfolding lead
lead_three_of a b l h lb hb low sur = (
  if a == 224 then 160 else 128,
  if a == 237 then 159 else 191,
  ground arith,
  ground (arith, low),
  ground (arith, sur),
)

lead_four_of :
    (a b : ℕ)
    → 240 ≤ a
    → a < 245
    → 128 ≤ b
    → b < 192
    → 144 ≤ (a - 240) * 64 + b
    → (a ≡ 244) × (b < 144) ⊎ (a < 244)
    → (lo : ℕ) × (hi : ℕ) × (lead a ≡ some (3, lo, hi, a - 240)) × (lo ≤ b) × (b ≤ hi)
unfolding lead
lead_four_of a b l h lb hb low top = (
  if a == 240 then 144 else 128,
  if a == 244 then 143 else 191,
  ground arith,
  ground (arith, low),
  ground (arith, top),
)

pub Encodes-encode_point : (c : ℕ) (front : List ℕ) → Encodes c front → encode_point c ≡ some front
unfolding encode_point
Encodes-encode_point c front (one h e) = rw e (ground arith)
Encodes-encode_point c front (two a b la ha lb hb v e) = rw (e, v) (ground arith)
Encodes-encode_point c front (three a lo hi acc b d l lb hb ld hd v e) =
    let facts = lead_three a lo hi acc l in rw (e, v) (ground (arith, facts))
Encodes-encode_point c front (four a lo hi acc b d f l lb hb ld hd lf hf v e) =
    let facts = lead_four a lo hi acc l in rw (e, v) (ground (arith, facts))

point_cases :
    (c : ℕ)
    → (c < 128)
      ⊎ ((128 ≤ c) × (c < 2048))
      ⊎ ((2048 ≤ c) × (c < 0xd800))
      ⊎ ((0xd800 ≤ c) × (c < 0xe000))
      ⊎ ((0xe000 ≤ c) × (c < 0x10000))
      ⊎ ((0x10000 ≤ c) × (c < 0x110000))
      ⊎ (0x110000 ≤ c)
point_cases c = omega arith

encode_three :
    (c : ℕ)
    → 2048 ≤ c
    → c < 0x10000
    → (c < 0xd800) ⊎ (0xe000 ≤ c)
    → Encodes c ((224 + c / 4096) ∷ (128 + c / 64 % 64) ∷ (128 + c % 64) ∷ [])
encode_three c l h sur =
    let (lo, hi, e, lb, hb) =
      lead_three_of (224 + c / 4096) (128 + c / 64 % 64) (omega arith) (omega (arith, h))
        (omega arith) (omega arith) (omega (arith, l)) (ground (arith, sur)) in
    three (224 + c / 4096) lo hi (224 + c / 4096 - 224) (128 + c / 64 % 64) (128 + c % 64) e lb hb
      (omega arith) (omega arith) (omega arith) refl

encode_four :
    (c : ℕ)
    → 0x10000 ≤ c
    → c < 0x110000
    → Encodes c
        ((240 + c / 262144) ∷ (128 + c / 4096 % 64) ∷ (128 + c / 64 % 64) ∷ (128 + c % 64) ∷ [])
encode_four c l h =
    let (lo, hi, e, lb, hb) =
      lead_four_of (240 + c / 262144) (128 + c / 4096 % 64) (omega arith) (omega (arith, h))
        (omega arith) (omega arith) (omega (arith, l)) (omega (arith, h)) in
    four (240 + c / 262144) lo hi (240 + c / 262144 - 240) (128 + c / 4096 % 64) (128 + c / 64 % 64)
      (128 + c % 64) e lb hb (omega arith) (omega arith) (omega arith) (omega arith) (omega arith)
      refl

pub encode_point-Encodes : (c : ℕ) (front : List ℕ) → encode_point c ≡ some front → Encodes c front
unfolding encode_point
encode_point-Encodes c front h = elim (point_cases c) [
  | inl s ↦ one s (ground (arith, h))
  | inr (inl (l, s)) ↦
      two (192 + c / 64) (128 + c % 64) (omega arith) (omega arith) (omega arith) (omega arith)
        (omega arith) (ground (arith, h))
  | inr (inr (inl (l, s))) ↦
      subst (Encodes c) (ground (arith, h)) (encode_three c l (omega arith) (inl s))
  | inr (inr (inr (inl (l, s)))) ↦ absurd (ground (arith, h))
  | inr (inr (inr (inr (inl (l, s))))) ↦
      subst (Encodes c) (ground (arith, h)) (encode_three c (omega arith) s (inr l))
  | inr (inr (inr (inr (inr (inl (l, s)))))) ↦
      subst (Encodes c) (ground (arith, h)) (encode_four c l s)
  | inr (inr (inr (inr (inr (inr l))))) ↦ absurd (ground (arith, h))
]
