-- ===== src/Tests/Slices.antt =====
-- Runs of mac/chatkit/cim/base/slice.h.
use coffee_chat_desktop.Prelude.{◌≡◌, [], ◌∷◌, arith}
use coffee_chat_desktop.Slice.{Slice, slice_of, slice_of_string, to_string, compare}
use coffee_chat_desktop.Slice.Compare.{IsValid, order, compare-order}

-- Views of "ab", of the first two bytes of "abc", of "abc" and of "b".
abbrev ab : Slice
ab = slice_of_string (97 ∷ 98 ∷ [])

abbrev ab_of_abc : Slice
ab_of_abc = slice_of (97 ∷ 98 ∷ 99 ∷ []) 2

abbrev abc : Slice
abc = slice_of_string (97 ∷ 98 ∷ 99 ∷ [])

abbrev b : Slice
b = slice_of_string (98 ∷ [])

ab-IsValid : IsValid ab
ab-IsValid = record { fits = omega arith }

ab_of_abc-IsValid : IsValid ab_of_abc
ab_of_abc-IsValid = record { fits = omega arith }

abc-IsValid : IsValid abc
abc-IsValid = record { fits = omega arith }

b-IsValid : IsValid b
b-IsValid = record { fits = omega arith }

compare-order_example : compare ab_of_abc abc ≡ order (97 ∷ 98 ∷ []) (97 ∷ 98 ∷ 99 ∷ [])
unfolding to_string
compare-order_example = compare-order ab_of_abc abc ab_of_abc-IsValid abc-IsValid
