-- ===== src/Md5/Blocks.antt =====
-- The block function of mac/chatkit/cim/crypt/md5.cpp over a whole message.
use coffee_chat_desktop.Prelude.{
  ℕ, zero, suc, ◌+◌, ◌*◌, ◌/◌, ◌≤◌, ◌<◌, ◌≡◌, refl, sym, ap, ap₂, ◌∙◌, inl, inr, List, ◌++◌, length,
  take, drop, ltb, Bool-cases, ltb→lt, arith, length-drop, drop-drop, drop-append_le,
  take-append_le,
}
use coffee_chat_desktop.Md5.{transform_loop}
use coffee_chat_desktop.Md5.Transform.{Regs, transform}

-- The first `k` blocks of the message, one after the other.
unfoldable pub absorb : ℕ → List ℕ → Regs → Regs
absorb zero msg r = r
absorb (suc k) msg r = absorb k (drop 64 msg) (transform (take 64 msg) r)

abbrev pub full_blocks : List ℕ → ℕ
full_blocks msg = length msg / 64

-- What is left behind the full blocks.
abbrev pub leftover : List ℕ → List ℕ
leftover msg = drop (full_blocks msg * 64) msg

pub absorb-add :
    (i j : ℕ) (msg : List ℕ) (r : Regs)
    → absorb (i + j) msg r ≡ absorb j (drop (i * 64) msg) (absorb i msg r)
unfolding absorb
absorb-add zero j msg r = ap (λ k. absorb k msg r) {x = zero + j} {y = j} (omega arith)
absorb-add (suc i) j msg r =
    ap (λ k. absorb k msg r) {x = suc i + j} {y = suc (i + j)} (omega arith)
    ∙ absorb-add i j (drop 64 msg) (transform (take 64 msg) r)
    ∙ ap (λ l. absorb j l (absorb (suc i) msg r))
        (drop-drop (i * 64) 64 msg
          ∙ ap (λ k. drop k msg) {x = 64 + i * 64} {y = suc i * 64} (omega arith))

pub absorb-append :
    (k : ℕ) (msg more : List ℕ) (r : Regs)
    → k * 64 ≤ length msg
    → absorb k (msg ++ more) r ≡ absorb k msg r
unfolding absorb
absorb-append zero msg more r h = refl
absorb-append (suc k) msg more r h =
    ap₂ (λ l t. absorb k l (transform t r)) (drop-append_le 64 msg more (omega arith))
      (take-append_le 64 msg more (omega arith))
    ∙ absorb-append k (drop 64 msg) more (transform (take 64 msg) r)
        (omega (arith, length-drop 64 msg))

no_block :
    (input : List ℕ) (r : Regs)
    → length input < 64
    → ◌≡◌ {A = Regs × List ℕ} (r, input) (absorb (full_blocks input) input r, leftover input)
unfolding absorb
no_block input r h = sym (
    ap (λ k. (absorb k input r, drop (k * 64) input)) {x = full_blocks input} {y = 0} (omega arith))

next_block :
    (input : List ℕ) (r : Regs)
    → 64 ≤ length input
    → let rest = drop 64 input in
      ◌≡◌ {A = Regs × List ℕ}
        (absorb (full_blocks rest) rest (transform (take 64 input) r), leftover rest)
        (absorb (full_blocks input) input r, leftover input)
unfolding absorb
next_block input r h =
    let k = full_blocks (drop 64 input) in
    ap (λ l. (absorb k (drop 64 input) (transform (take 64 input) r), l))
      (drop-drop (k * 64) 64 input
        ∙ ap (λ n. drop n input) {x = 64 + k * 64} {y = suc k * 64} (omega arith))
    ∙ ap (λ n. (absorb n input r, drop (n * 64) input)) {x = suc k} {y = full_blocks input}
        (omega (arith, length-drop 64 input))

-- The loop of `update` goes through all full blocks of its input, and leaves the rest: it ends by
-- its test within as many rounds as the input has bytes.
pub transform_loop_lem :
    (fuel : ℕ) (input : List ℕ) (r : Regs)
    → length input ≤ fuel
    → transform_loop fuel input r ≡ (absorb (full_blocks input) input r, leftover input)
unfolding transform_loop
transform_loop_lem zero input r h = no_block input r (omega arith)
transform_loop_lem (suc fuel) input r h = elim (Bool-cases (ltb 63 (length input))) [
  | inl more ↦
      let long = ltb→lt 63 (length input) more in
      rw more (
        transform_loop_lem fuel (drop 64 input) (transform (take 64 input) r)
          (omega (arith, length-drop 64 input))
        ∙ next_block input r long)
  | inr done ↦ rw done (no_block input r (ground arith))
]
