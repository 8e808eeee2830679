-- ===== src/Prelude/Decimal.antt =====
-- Decimal numbers as text: `std::to_string` of an unsigned number, `std::atoi`, and what the cast
-- of an `int` to a `uint16_t` keeps.
use Prim.Native.Nat.{ℕ, zero, suc, ◌+◌, ◌-◌, ◌*◌, ◌/◌, ◌%◌, ◌^◌, ◌<◌}
use mathlib.Core.Path.{◌≡◌, refl, sym, ap, ◌∙◌, subst}
use mathlib.Core.Logic.{inl, inr}
use mathlib.Core.Bool.{Bool, true, false, ◌&&◌, ◌||◌}
use mathlib.Core.List.{List, [], ◌∷◌, ◌++◌}
use native.Mathlib.Omega.{arith}
use coffee_chat_desktop.Prelude.Tests.{Bool-cases, ltb, leb, ◌==◌, if◌then◌else◌}
use coffee_chat_desktop.Prelude.Int.{ℤ, pos, negsuc}
use coffee_chat_desktop.Prelude.Lists.{All}

-- The digits of `n`, on fuel: a number has fewer digits than its successor counts.
unfoldable pub decimal_from : ℕ → ℕ → List ℕ
decimal_from zero n = []
decimal_from (suc fuel) n = elim (ltb n 10) [
  | true ↦ (b'0' + n) ∷ []
  | false ↦ decimal_from fuel (n / 10) ++ ((b'0' + n % 10) ∷ [])
]

-- `std::to_string(n)`
unfoldable pub decimal : ℕ → List ℕ
decimal n = decimal_from (suc n) n

abbrev pub is_digit : ℕ → Bool
is_digit c = leb b'0' c && leb c b'9'

unfoldable pub digits_value : ℕ → List ℕ → ℕ
digits_value acc [] = acc
digits_value acc (c ∷ cs) =
    let rest = digits_value (acc * 10 + (c - b'0')) cs in if is_digit c then rest else acc

-- `isspace`
abbrev pub is_space : ℕ → Bool
is_space c = c == b' ' || (leb 9 c && leb c 13)

abbrev negated : ℕ → ℤ
negated zero = pos 0
negated (suc n) = negsuc n

-- The optional sign, and the digits behind it.
unfoldable pub signed_value : List ℕ → ℤ
signed_value [] = pos 0
signed_value (c ∷ cs) =
    if c == b'-'
    then negated (digits_value 0 cs)
    else (if c == b'+' then pos (digits_value 0 cs) else pos (digits_value 0 (c ∷ cs)))

unfoldable pub skip_spaces : List ℕ → List ℕ
skip_spaces [] = []
skip_spaces (c ∷ cs) = let rest = skip_spaces cs in if is_space c then rest else c ∷ cs

-- `std::atoi(s)`, for text whose number is an `int`.
unfoldable pub atoi : List ℕ → ℤ
atoi s = signed_value (skip_spaces s)

-- An `int` cut to a `uint16_t`.
abbrev pub to_uint16 : ℤ → ℕ
to_uint16 (pos n) = n % 2 ^ 16
to_uint16 (negsuc n) = 2 ^ 16 - 1 - n % 2 ^ 16

digits_value-append :
    (acc : ℕ) (xs ys : List ℕ)
    → All (λ c. is_digit c ≡ true) xs
    → digits_value acc (xs ++ ys) ≡ digits_value (digits_value acc xs) ys
unfolding digits_value
digits_value-append acc [] ys h = refl
digits_value-append acc (x ∷ xs) ys h =
    ground (arith, h.0, digits_value-append (acc * 10 + (x - b'0')) xs ys h.1)

All-append_one :
    (xs : List ℕ) (d : ℕ)
    → All (λ c. is_digit c ≡ true) xs
    → is_digit d ≡ true
    → All (λ c. is_digit c ≡ true) (xs ++ (d ∷ []))
All-append_one [] d h k = (k, tt)
All-append_one (x ∷ xs) d h k = (h.0, All-append_one xs d h.1 k)

decimal_from-small : (fuel n : ℕ) → ltb n 10 ≡ true → decimal_from (suc fuel) n ≡ (b'0' + n) ∷ []
unfolding decimal_from
decimal_from-small fuel n h = ground arith

decimal_from-large :
    (fuel n : ℕ)
    → ltb n 10 ≡ false
    → decimal_from (suc fuel) n ≡ decimal_from fuel (n / 10) ++ ((b'0' + n % 10) ∷ [])
unfolding decimal_from
decimal_from-large fuel n h = ground arith

decimal_from-IsDigit : (fuel n : ℕ) → All (λ c. is_digit c ≡ true) (decimal_from fuel n)
unfolding decimal_from
decimal_from-IsDigit zero n = tt
decimal_from-IsDigit (suc fuel) n = elim (Bool-cases (ltb n 10)) [
  | inl small ↦
      subst (All (λ c. is_digit c ≡ true)) (sym (decimal_from-small fuel n small)) (ground arith)
  | inr large ↦ subst (All (λ c. is_digit c ≡ true)) (sym (decimal_from-large fuel n large)) (
      All-append_one (decimal_from fuel (n / 10)) (b'0' + n % 10)
        (decimal_from-IsDigit fuel (n / 10)) (ground arith))
]

pub decimal-IsDigit : (n : ℕ) → All (λ c. is_digit c ≡ true) (decimal n)
unfolding decimal
decimal-IsDigit n = decimal_from-IsDigit (suc n) n

digits_value-decimal_from : (fuel n : ℕ) → n < fuel → digits_value 0 (decimal_from fuel n) ≡ n
unfolding digits_value
digits_value-decimal_from zero n h = absurd (omega (arith, h))
digits_value-decimal_from (suc fuel) n h = elim (Bool-cases (ltb n 10)) [
  | inl small ↦ rw (decimal_from-small fuel n small) (ground arith)
  | inr large ↦
      ap (digits_value 0) (decimal_from-large fuel n large)
      ∙ digits_value-append 0 (decimal_from fuel (n / 10)) ((b'0' + n % 10) ∷ [])
          (decimal_from-IsDigit fuel (n / 10))
      ∙ ground (arith, digits_value-decimal_from fuel (n / 10))
]

-- A number's text starts with a digit, so `atoi` skips nothing and sees no sign.
signed_value-digits :
    (s : List ℕ) → All (λ c. is_digit c ≡ true) s → signed_value s ≡ pos (digits_value 0 s)
unfolding signed_value digits_value
signed_value-digits [] h = refl
signed_value-digits (c ∷ cs) h = ground (arith, h.0)

skip_spaces-digits : (s : List ℕ) → All (λ c. is_digit c ≡ true) s → skip_spaces s ≡ s
unfolding skip_spaces
skip_spaces-digits [] h = refl
skip_spaces-digits (c ∷ cs) h = ground (arith, h.0)

pub atoi-decimal : (n : ℕ) → atoi (decimal n) ≡ pos n
unfolding atoi decimal
atoi-decimal n =
    let digits = decimal_from-IsDigit (suc n) n in
    ap signed_value (skip_spaces-digits (decimal_from (suc n) n) digits)
    ∙ signed_value-digits (decimal_from (suc n) n) digits
    ∙ ap pos (digits_value-decimal_from (suc n) n (omega arith))
