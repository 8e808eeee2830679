-- ===== src/Slice.antt =====
-- mac/chatkit/cim/base/slice.h: a view of bytes that belong to somebody else.
pub mod Compare
pub mod Order
use coffee_chat_desktop.Prelude.{
  ℕ, zero, suc, ◌-◌, Bool, not, ◌&&◌, List, [], ◌∷◌, length, take, drop, get_or, if◌then◌else◌, ltb,
  leb, ◌==◌, Outcome, ok, ◌>>=◌, ◌>>◌, assert,
}
use coffee_chat_desktop.Prelude.Int.{ℤ, pos, minus_one, ◌==ℤ◌, is_negative}

-- `data` is what lies at the pointer and behind it.
pub record Slice : Type 0 where
  pub data_ : List ℕ
  pub size : ℕ

-- The constructors: nothing, `n` bytes at `d`, and a `std::string`.
abbrev pub empty_slice : Slice
empty_slice = record { data_ = []; size = 0 }

abbrev pub slice_of : List ℕ → ℕ → Slice
slice_of d n = record { data_ = d; size = n }

abbrev pub slice_of_string : List ℕ → Slice
slice_of_string s = record { data_ = s; size = length s }

-- The length of a C string, and the view of one.
abbrev pub strlen : List ℕ → ℕ
strlen [] = 0
strlen (zero ∷ cs) = 0
strlen (suc c ∷ cs) = suc (strlen cs)

abbrev pub slice_of_c_string : List ℕ → Slice
slice_of_c_string s = record { data_ = s; size = strlen s }

unfoldable pub is_empty : Slice → Bool
is_empty s = s.size == 0

-- `operator[]`
unfoldable pub at : Slice → ℕ → Outcome ℕ
at s n = do assert (ltb n s.size); ok (get_or s.data_ n 0)

unfoldable pub clear : Slice → Slice
clear s = empty_slice

unfoldable pub remove_prefix : Slice → ℕ → Outcome Slice
remove_prefix s n = do
  assert (leb n s.size)
  ok (record { data_ = drop n s.data_; size = s.size - n })

unfoldable pub to_string : Slice → List ℕ
to_string s = take s.size s.data_

-- `memcmp(x, y, n)` on unsigned bytes. The C library fixes the sign of the result only.
unfoldable pub memcmp : ℕ → List ℕ → List ℕ → ℤ
memcmp zero xs ys = pos 0
memcmp (suc n) (x ∷ xs) (y ∷ ys) =
    let rest = memcmp n xs ys in if x == y then rest else (if ltb x y then minus_one else pos 1)
memcmp (suc n) _ _ = pos 0

-- `compare(b)`, with the member sizes in place of the pointers' ends.
unfoldable pub compare : Slice → Slice → ℤ
compare a b =
    let min_len = if ltb a.size b.size then a.size else b.size in
    let r = memcmp min_len a.data_ b.data_ in
    if r ==ℤ pos 0
    then (if ltb a.size b.size then minus_one else (if ltb b.size a.size then pos 1 else r))
    else r

-- `operator==`, `operator!=` and `operator<`
unfoldable pub equals : Slice → Slice → Bool
equals x y = (x.size == y.size) && (memcmp x.size x.data_ y.data_ ==ℤ pos 0)

unfoldable pub differs : Slice → Slice → Bool
unfolding equals
differs x y = not (equals x y)

unfoldable pub is_less : Slice → Slice → Bool
unfolding compare
is_less x y = is_negative (compare x y)
