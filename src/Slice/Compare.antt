-- ===== src/Slice/Compare.antt =====
-- `Slice::compare` of mac/chatkit/cim/base/slice.h is the comparison of the viewed bytes.
use coffee_chat_desktop.Prelude.{
  ℕ, zero, suc, ◌-◌, ◌≤◌, ◌≡◌, refl, ap, ◌∙◌, true, List, [], ◌∷◌, length, take, drop,
  if◌then◌else◌, ltb, leb, ◌+◌, ◌==◌, arith, Returns, length-drop, take-drop,
}
use coffee_chat_desktop.Prelude.Int.{ℤ, pos, minus_one, ◌==ℤ◌}
use coffee_chat_desktop.Slice.{Slice, to_string, memcmp, compare, remove_prefix}

-- The view lies inside of what is there.
pub record IsValid (s : Slice) : Type 0 where
  pub fits : s.size ≤ length s.data_

-- The order of byte strings: by the first byte that differs, a prefix first.
unfoldable pub order : List ℕ → List ℕ → ℤ
order [] [] = pos 0
order [] (y ∷ ys) = minus_one
order (x ∷ xs) [] = pos 1
order (x ∷ xs) (y ∷ ys) =
    let rest = order xs ys in if x == y then rest else (if ltb x y then minus_one else pos 1)

-- What `compare` does with the common part and the two sizes.
by_size : ℤ → ℕ → ℕ → ℤ
by_size r m n =
    if r ==ℤ pos 0 then (if ltb m n then minus_one else (if ltb n m then pos 1 else r)) else r

memcmp-order :
    (m n k : ℕ) (xs ys : List ℕ)
    → k ≡ (if ltb m n then m else n)
    → m ≤ length xs
    → n ≤ length ys
    → by_size (memcmp k xs ys) m n ≡ order (take m xs) (take n ys)
unfolding memcmp order by_size
memcmp-order zero zero k xs ys e hm hn =
    let none : k ≡ 0 = ground (arith, e) in rw none (ground arith)
memcmp-order zero (suc n) k xs [] e hm hn = absurd (omega (arith, hn))
memcmp-order zero (suc n) k xs (y ∷ ys) e hm hn =
    let none : k ≡ 0 = ground (arith, e) in rw none (ground arith)
memcmp-order (suc m) zero k [] ys e hm hn = absurd (omega (arith, hm))
memcmp-order (suc m) zero k (x ∷ xs) ys e hm hn =
    let none : k ≡ 0 = ground (arith, e) in rw none (ground arith)
memcmp-order (suc m) (suc n) zero xs ys e hm hn = absurd (ground (arith, e))
memcmp-order (suc m) (suc n) (suc k) [] ys e hm hn = absurd (omega (arith, hm))
memcmp-order (suc m) (suc n) (suc k) (x ∷ xs) [] e hm hn = absurd (omega (arith, hn))
memcmp-order (suc m) (suc n) (suc k) (x ∷ xs) (y ∷ ys) e hm hn =
    let rest =
      memcmp-order m n k xs ys (ground (arith, e)) (omega (arith, hm)) (omega (arith, hn)) in
    ground (arith, rest)

-- `compare` of two views that lie inside of what is there is the lexicographic order of the
-- bytes that they view, whatever lies behind them.
pub compare-order :
    (a b : Slice) → IsValid a → IsValid b → compare a b ≡ order (to_string a) (to_string b)
unfolding compare to_string by_size
compare-order a b va vb =
    memcmp-order a.size b.size (if ltb a.size b.size then a.size else b.size) a.data_ b.data_ refl
      va.fits vb.fits

-- On views of one size `memcmp` alone is the order.
pub memcmp-same_size :
    (n : ℕ) (xs ys : List ℕ)
    → n ≤ length xs
    → n ≤ length ys
    → memcmp n xs ys ≡ order (take n xs) (take n ys)
unfolding by_size
memcmp-same_size n xs ys hx hy =
    let both = memcmp-order n n n xs ys (ground arith) hx hy in ground (arith, both)

-- `remove_prefix` on a view inside of what is there, of as many bytes as it has or fewer, leaves
-- the view of the bytes behind them.
pub remove_prefix_lem :
    (s : Slice) (n : ℕ)
    → IsValid s
    → n ≤ s.size
    → Returns (remove_prefix s n) (λ t. IsValid t × (to_string t ≡ drop n (to_string s)))
unfolding remove_prefix to_string
remove_prefix_lem s n v h =
    let view : take (s.size - n) (drop n s.data_) ≡ drop n (take s.size s.data_) =
      take-drop (s.size - n) n s.data_
      ∙ ap (λ k. drop n (take k s.data_)) {x = n + (s.size - n)} {y = s.size} (omega (arith, h)) in
    let inside : leb n s.size ≡ true = ground (arith, h) in
    rw inside (record { fits = omega (arith, h, v.fits, length-drop n s.data_) }, view)
