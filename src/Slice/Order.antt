-- ===== src/Slice/Order.antt =====
-- The comparisons of mac/chatkit/cim/base/slice.h order views by their bytes.
use coffee_chat_desktop.Prelude.{
  ℕ, zero, suc, ◌≡◌, refl, sym, ap, ap₂, ◌∙◌, ◌↔◌, true, List, [], ◌∷◌, ◌==◌, ==_iff, arith, length,
  take, length-take, not, inl, inr, Bool-cases,
}
use coffee_chat_desktop.Prelude.Int.{ℤ, pos, negsuc, ==ℤ_iff, is_negative}
use coffee_chat_desktop.Slice.{Slice, memcmp, to_string, compare, equals, differs, is_less}
use coffee_chat_desktop.Slice.Compare.{IsValid, order, compare-order, memcmp-same_size}

abbrev opposite : ℤ → ℤ
opposite (pos zero) = pos 0
opposite (pos (suc n)) = negsuc n
opposite (negsuc n) = pos (suc n)

order-zero : (xs : List ℕ) → order xs xs ≡ pos 0
unfolding order
order-zero [] = refl
order-zero (x ∷ xs) = ground (arith, order-zero xs)

order-≡ : (xs ys : List ℕ) → order xs ys ≡ pos 0 → xs ≡ ys
unfolding order
order-≡ [] [] e = refl
order-≡ [] (y ∷ ys) e = absurd (cc e)
order-≡ (x ∷ xs) [] e = absurd (cc e)
order-≡ (x ∷ xs) (y ∷ ys) e = elim (Bool-cases (x == y)) [
  | inl same ↦ ap₂ ◌∷◌ ((==_iff x y).0 same) (order-≡ xs ys (ground (arith, e, same)))
  | inr other ↦ absurd (ground (arith, e, other))
]

order-opposite : (xs ys : List ℕ) → order ys xs ≡ opposite (order xs ys)
unfolding order
order-opposite [] [] = refl
order-opposite [] (y ∷ ys) = refl
order-opposite (x ∷ xs) [] = refl
order-opposite (x ∷ xs) (y ∷ ys) = ground (arith, order-opposite xs ys)

order_trans :
    (xs ys zs : List ℕ)
    → is_negative (order xs ys) ≡ true
    → is_negative (order ys zs) ≡ true
    → is_negative (order xs zs) ≡ true
unfolding order
order_trans [] [] zs h k = absurd (cc h)
order_trans [] (y ∷ ys) [] h k = absurd (cc k)
order_trans [] (y ∷ ys) (z ∷ zs) h k = refl
order_trans (x ∷ xs) [] zs h k = absurd (cc h)
order_trans (x ∷ xs) (y ∷ ys) [] h k = absurd (cc k)
order_trans (x ∷ xs) (y ∷ ys) (z ∷ zs) h k = ground (arith, h, k, order_trans xs ys zs)

-- Swapping the two views turns the sign of `compare` round.
pub compare-opposite : (a b : Slice) → IsValid a → IsValid b → compare b a ≡ opposite (compare a b)
compare-opposite a b va vb =
    compare-order b a vb va
    ∙ order-opposite (to_string a) (to_string b)
    ∙ ap opposite (sym (compare-order a b va vb))

-- `<` on views that lie inside of what is there is transitive.
pub is_less_trans :
    (a b c : Slice)
    → IsValid a
    → IsValid b
    → IsValid c
    → is_less a b ≡ true
    → is_less b c ≡ true
    → is_less a c ≡ true
unfolding is_less
is_less_trans a b c va vb vc ab bc =
    ap is_negative (compare-order a c va vc)
    ∙ order_trans (to_string a) (to_string b) (to_string c)
        (ap is_negative (sym (compare-order a b va vb)) ∙ ab)
        (ap is_negative (sym (compare-order b c vb vc)) ∙ bc)

length-to_string : (s : Slice) → IsValid s → length (to_string s) ≡ s.size
unfolding to_string
length-to_string s v = omega (arith, length-take s.size s.data_, v.fits)

same_size-order :
    (x y : Slice)
    → IsValid x
    → IsValid y
    → x.size ≡ y.size
    → memcmp x.size x.data_ y.data_ ≡ order (to_string x) (to_string y)
unfolding to_string
same_size-order x y vx vy e =
    memcmp-same_size x.size x.data_ y.data_ vx.fits (omega (arith, e, vy.fits))
    ∙ ap (λ n. order (take x.size x.data_) (take n y.data_)) e

size-order :
    (x y : Slice)
    → IsValid x
    → IsValid y
    → order (to_string x) (to_string y) ≡ pos 0
    → x.size ≡ y.size
size-order x y vx vy e =
    sym (length-to_string x vx)
    ∙ ap length (order-≡ (to_string x) (to_string y) e)
    ∙ length-to_string y vy

equals-order :
    (x y : Slice)
    → IsValid x
    → IsValid y
    → (equals x y ≡ true) ↔ (order (to_string x) (to_string y) ≡ pos 0)
unfolding equals
equals-order x y vx vy = elim (Bool-cases (x.size == y.size)) [
  | inl same ↦
      let e = (==_iff x.size y.size).0 same in
      let iff = ==ℤ_iff (order (to_string x) (to_string y)) (pos 0) in
      rw (same, same_size-order x y vx vy e) iff
  | inr other ↦ (
    λ e. absurd (ground (arith, other, e)),
    λ e. absurd (ground (arith, other, (==_iff x.size y.size).1 (size-order x y vx vy e))),
  )
]

-- `==` says of two views that lie inside of what is there whether they view the same bytes, and
-- agrees with `compare`; `!=` says the opposite.
pub equals_iff :
    (x y : Slice)
    → IsValid x
    → IsValid y
    → ((equals x y ≡ true) ↔ (to_string x ≡ to_string y))
      × ((equals x y ≡ true) ↔ (compare x y ≡ pos 0))
      × (differs x y ≡ not (equals x y))
unfolding differs
equals_iff x y vx vy =
    let bytes : (order (to_string x) (to_string y) ≡ pos 0) ↔ (to_string x ≡ to_string y) = (
      order-≡ (to_string x) (to_string y),
      λ e. ap (order (to_string x)) (sym e) ∙ order-zero (to_string x),
    ) in
    let same = equals-order x y vx vy in
    (
      (λ e. bytes.0 (same.0 e), λ e. same.1 (bytes.1 e)),
      (λ e. compare-order x y vx vy ∙ same.0 e, λ e. same.1 (sym (compare-order x y vx vy) ∙ e)),
      refl,
    )
