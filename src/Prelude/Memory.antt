-- ===== src/Prelude/Memory.antt =====
-- A block of memory as a list of bytes: `memcpy` into it, and the run of bytes from an index on.
use coffee_chat_desktop.Prelude.Lists.{
  length, get_or, take, drop, length-append, length-take, length-drop, take-append, drop-append,
  take-drop, drop-append_le, drop-drop, take_nil,
}
use Prim.Native.Nat.{ℕ, zero, suc, ◌+◌, ◌-◌, ◌≤◌}
use mathlib.Core.Path.{◌≡◌, refl, sym, ap, ◌∙◌}
use mathlib.Core.List.{List, [], ◌∷◌, ◌++◌, append-nil}
use native.Mathlib.Omega.{arith}

module _ {ℓ} {A : Type ℓ} where
  -- `memcpy(mem + off, bs, n)`, and `memmove`. A copy that leaves the block is undefined in the
  -- source; here it makes the block longer, which the invariants rule out.
  abbrev pub blit : List A → ℕ → List A → List A
  blit mem off bs = take off mem ++ (bs ++ drop (off + length bs) mem)

  -- The `n` bytes from index `r` on.
  abbrev pub window : List A → ℕ → ℕ → List A
  window mem r n = take n (drop r mem)

  pub take-append_add :
      (n m : ℕ) (xs ys : List A) → n ≡ length xs + m → take n (xs ++ ys) ≡ xs ++ take m ys
  take-append_add n m xs ys e = ap (λ k. take k (xs ++ ys)) e ∙ take-append m xs ys

  pub drop-append_add :
      (n m : ℕ) (xs ys : List A) → n ≡ length xs + m → drop n (xs ++ ys) ≡ drop m ys
  drop-append_add n m xs ys e = ap (λ k. drop k (xs ++ ys)) e ∙ drop-append m xs ys

  pub take-append_eq : (n : ℕ) (xs ys : List A) → n ≡ length xs → take n (xs ++ ys) ≡ xs
  take-append_eq n xs ys e = take-append_add n 0 xs ys (omega arith) ∙ append-nil xs

  pub drop-append_eq : (n : ℕ) (xs ys : List A) → n ≡ length xs → drop n (xs ++ ys) ≡ ys
  drop-append_eq n xs ys e = drop-append_add n 0 xs ys (omega arith)

  pub length-window : (mem : List A) (r n : ℕ) → r + n ≤ length mem → length (window mem r n) ≡ n
  length-window mem r n h = omega (arith, length-take n (drop r mem), length-drop r mem)

  pub length-blit :
      (mem : List A) (off : ℕ) (bs : List A)
      → off + length bs ≤ length mem
      → length (blit mem off bs) ≡ length mem
  length-blit mem off bs h = omega (
    arith,
    length-append (take off mem) (bs ++ drop (off + length bs) mem),
    length-append bs (drop (off + length bs) mem),
    length-take off mem,
    length-drop (off + length bs) mem,
  )

  drop-blit :
      (mem : List A) (off : ℕ) (bs : List A)
      → off + length bs ≤ length mem
      → drop off (blit mem off bs) ≡ bs ++ drop (off + length bs) mem
  drop-blit mem off bs h = drop-append_eq off (take off mem) _ (omega (arith, length-take off mem))

  -- What was copied in is read back.
  pub window-blit_self :
      (mem : List A) (off : ℕ) (bs : List A)
      → off + length bs ≤ length mem
      → window (blit mem off bs) off (length bs) ≡ bs
  window-blit_self mem off bs h =
      ap (take (length bs)) (drop-blit mem off bs h) ∙ take-append_eq _ bs _ refl

  -- A copy just behind a run extends it.
  pub window-blit_after :
      (mem : List A) (r n : ℕ) (bs : List A)
      → r + n + length bs ≤ length mem
      → window (blit mem (r + n) bs) r (n + length bs) ≡ window mem r n ++ bs
  window-blit_after mem r n bs h =
      ap (take (n + length bs)) (
        drop-append_le r (take (r + n) mem) _ (omega (arith, length-take (r + n) mem))
        ∙ ap (λ l. l ++ (bs ++ drop (r + n + length bs) mem)) (sym (take-drop n r mem)))
      ∙ take-append_add _ (length bs) (window mem r n) _
          (omega (arith, length-window mem r n (omega arith)))
      ∙ ap (◌++◌ (window mem r n)) (take-append_eq _ bs _ refl)

  -- A copy just in front of a run extends it at the front.
  pub window-blit_before :
      (mem : List A) (off n : ℕ) (bs : List A)
      → off + length bs ≤ length mem
      → window (blit mem off bs) off (length bs + n) ≡ bs ++ window mem (off + length bs) n
  window-blit_before mem off n bs h =
      ap (take (length bs + n)) (drop-blit mem off bs h) ∙ take-append_add _ n bs _ refl

  take-add : (m n : ℕ) (l : List A) → take (m + n) l ≡ take m l ++ take n (drop m l)
  take-add zero n l = ap (λ k. take k l) {x = zero + n} {y = n} (omega arith)
  take-add (suc m) n [] = take_nil (suc m + n) ∙ sym (take_nil n)
  take-add (suc m) n (x ∷ l) =
      ap (λ k. take k (x ∷ l)) {x = suc m + n} {y = suc (m + n)} (omega arith)
      ∙ ap (◌∷◌ x) (take-add m n l)

  -- A run in two parts.
  pub window-split :
      (mem : List A) (r m n : ℕ) → window mem r (m + n) ≡ window mem r m ++ window mem (r + m) n
  window-split mem r m n =
      take-add m n (drop r mem) ∙ ap (λ l. window mem r m ++ take n l) (drop-drop m r mem)

  pub take-window :
      (mem : List A) (r m n : ℕ)
      → m ≤ n
      → r + n ≤ length mem
      → take m (window mem r n) ≡ window mem r m
  take-window mem r m n h k =
      ap (take m)
        (ap (window mem r) {x = n} {y = m + (n - m)} (omega arith) ∙ window-split mem r m (n - m))
      ∙ take-append_eq m (window mem r m) _ (sym (length-window mem r m (omega arith)))

  pub drop-window :
      (mem : List A) (r m n : ℕ)
      → m ≤ n
      → r + n ≤ length mem
      → drop m (window mem r n) ≡ window mem (r + m) (n - m)
  drop-window mem r m n h k =
      ap (drop m)
        (ap (window mem r) {x = n} {y = m + (n - m)} (omega arith) ∙ window-split mem r m (n - m))
      ∙ drop-append_eq m (window mem r m) _ (sym (length-window mem r m (omega arith)))

  pub get_or-window :
      (mem : List A) (r n : ℕ) (d x : A) (rest : List A)
      → window mem r n ≡ x ∷ rest
      → get_or mem r d ≡ x
  get_or-window [] zero zero d x rest e = cc
  get_or-window [] zero (suc n) d x rest e = cc
  get_or-window [] (suc r) zero d x rest e = cc
  get_or-window [] (suc r) (suc n) d x rest e = cc
  get_or-window (y ∷ ys) zero zero d x rest e = cc
  get_or-window (y ∷ ys) zero (suc n) d x rest e = cc
  get_or-window (y ∷ ys) (suc r) n d x rest e = get_or-window ys r n d x rest e
