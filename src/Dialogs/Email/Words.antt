-- ===== src/Dialogs/Email/Words.antt =====
-- The words of an address, as the expression of mac/hellochat/gui/logindialog.cpp has them.
use coffee_chat_desktop.Prelude.{
  ℕ, ◌≤◌, ◌≡◌, ◌↔◌, refl, true, List, [], ◌∷◌, length, All, arith, ==_iff, ◌==◌, inl, inr,
  Bool-cases, leb, ◌&&◌,
}
use coffee_chat_desktop.Dialogs.Email.{char_class, Plus, once, more, Matches, is_word_char, word}

-- A letter of ASCII, a digit, '_' or '-', by their codes.
pub data IsWordChar (c : ℕ) : Type 0 where
  lower : 97 ≤ c → c ≤ 122 → IsWordChar c
  upper : 65 ≤ c → c ≤ 90 → IsWordChar c
  digit : 48 ≤ c → c ≤ 57 → IsWordChar c
  underscore : c ≡ 95 → IsWordChar c
  dash : c ≡ 45 → IsWordChar c

is_word_char-IsWordChar : (c : ℕ) → is_word_char c ≡ true → IsWordChar c
unfolding is_word_char
is_word_char-IsWordChar c h = elim (Bool-cases (leb 97 c && leb c 122)) [
  | inl e ↦ lower (ground (arith, e)) (ground (arith, e))
  | inr e ↦ elim (Bool-cases (leb 65 c && leb c 90)) [
    | inl f ↦ upper (ground (arith, f)) (ground (arith, f))
    | inr f ↦ elim (Bool-cases (leb 48 c && leb c 57)) [
      | inl g ↦ digit (ground (arith, g)) (ground (arith, g))
      | inr g ↦ elim (Bool-cases (c == 95)) [
        | inl k ↦ underscore ((==_iff c 95).0 k)
        | inr k ↦ dash ((==_iff c 45).0 (ground (arith, h, e, f, g, k)))
      ]
    ]
  ]
]

IsWordChar-is_word_char : (c : ℕ) → IsWordChar c → is_word_char c ≡ true
unfolding is_word_char
IsWordChar-is_word_char c (lower l h) = ground (arith, l, h)
IsWordChar-is_word_char c (upper l h) = ground (arith, l, h)
IsWordChar-is_word_char c (digit l h) = ground (arith, l, h)
IsWordChar-is_word_char c (underscore e) = rw e refl
IsWordChar-is_word_char c (dash e) = rw e refl

-- Letters, digits, '_' and '-', at least one.
pub record IsWord (s : List ℕ) : Type 0 where
  pub chars : All IsWordChar s
  pub filled : 1 ≤ length s

pub word_chars : (s : List ℕ) → All IsWordChar s → All (λ c. is_word_char c ≡ true) s
word_chars [] h = tt
word_chars (c ∷ s) h = (IsWordChar-is_word_char c h.0, word_chars s h.1)

proper_chars : (s : List ℕ) → All (λ c. is_word_char c ≡ true) s → All IsWordChar s
proper_chars [] h = tt
proper_chars (c ∷ s) h = (is_word_char-IsWordChar c h.0, proper_chars s h.1)

pub length-IsWord : (s : List ℕ) → All (λ c. is_word_char c ≡ true) s → 1 ≤ length s → IsWord s
length-IsWord s h n = record { chars = proper_chars s h; filled = n }

Plus-IsWord : (s : List ℕ) → Plus (Matches (char_class is_word_char)) s → IsWord s
unfolding Matches
Plus-IsWord s (once (c, e, h)) =
    rw e (record { chars = (is_word_char-IsWordChar c h, tt); filled = omega arith })
Plus-IsWord s (more x y (c, e, h) rest f) =
    let w = Plus-IsWord y rest in
    rw (f, e) (record { chars = (is_word_char-IsWordChar c h, w.chars); filled = omega arith })

word-IsWord :
    (c : ℕ) (cs : List ℕ)
    → All (λ d. is_word_char d ≡ true) (c ∷ cs)
    → Plus (Matches (char_class is_word_char)) (c ∷ cs)
unfolding Matches
word-IsWord c [] (h, all) = once (c, refl, h)
word-IsWord c (d ∷ ds) (h, all) = more (c ∷ []) (d ∷ ds) (c, refl, h) (word-IsWord d ds all) refl

pub word_iff : (s : List ℕ) → Matches word s ↔ IsWord s
unfolding Matches
word_iff [] = (Plus-IsWord [], λ w. absurd (omega (arith, w.filled)))
word_iff (c ∷ cs) = (Plus-IsWord (c ∷ cs), λ w. word-IsWord c cs (word_chars (c ∷ cs) w.chars))
