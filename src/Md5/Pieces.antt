-- ===== src/Md5/Pieces.antt =====
-- What a piece that is put behind a message does to its blocks, for `update` of
-- mac/chatkit/cim/crypt/md5.cpp.
use coffee_chat_desktop.Prelude.{
  ℕ, suc, ◌+◌, ◌*◌, ◌%◌, ◌<◌, ◌≡◌, sym, ap, ap₂, ◌∙◌, List, ◌++◌, length, drop, arith, length-drop,
  drop-drop, drop-append_le, length-append, append_assoc,
}
use coffee_chat_desktop.Prelude.Memory.{drop-append_eq, take-append_eq}
use coffee_chat_desktop.Md5.Transform.{Regs, transform}
use coffee_chat_desktop.Md5.Blocks.{absorb, full_blocks, leftover, absorb-add, absorb-append}

pub length-leftover : (msg : List ℕ) → length (leftover msg) ≡ length msg % 64
length-leftover msg = omega (arith, length-drop (full_blocks msg * 64) msg)

-- A piece that does not fill the buffer.
pub leftover-append_short :
    (msg input : List ℕ)
    → length msg % 64 + length input < 64
    → leftover (msg ++ input) ≡ leftover msg ++ input
leftover-append_short msg input h =
    ap (λ k. drop (k * 64) (msg ++ input)) {x = full_blocks (msg ++ input)} {y = full_blocks msg}
      (omega (arith, length-append msg input))
    ∙ drop-append_le (full_blocks msg * 64) msg input (omega arith)

pub absorb-append_short :
    (msg input : List ℕ) (r : Regs)
    → length msg % 64 + length input < 64
    → absorb (full_blocks (msg ++ input)) (msg ++ input) r ≡ absorb (full_blocks msg) msg r
absorb-append_short msg input r h =
    ap (λ k. absorb k (msg ++ input) r) {x = full_blocks (msg ++ input)} {y = full_blocks msg}
      (omega (arith, length-append msg input))
    ∙ absorb-append (full_blocks msg) msg input r (omega arith)

-- A piece that fills the buffer: `front` completes the block, `rest` follows.
module _ (msg front rest : List ℕ) (fill : length msg % 64 + length front ≡ 64) where
  pub blocks_split : full_blocks (msg ++ (front ++ rest)) ≡ full_blocks msg + suc (full_blocks rest)
  blocks_split = omega (arith, length-append msg (front ++ rest), length-append front rest)

  pub behind_blocks :
      drop (full_blocks msg * 64) (msg ++ (front ++ rest)) ≡ (leftover msg ++ front) ++ rest
  behind_blocks =
      drop-append_le (full_blocks msg * 64) msg (front ++ rest) (omega arith)
      ∙ sym (append_assoc (leftover msg) front rest)

  pub length_block : 64 ≡ length (leftover msg ++ front)
  length_block = omega (arith, length-append (leftover msg) front, length-leftover msg)

  pub absorb-append_full :
      (r : Regs)
      → absorb (full_blocks (msg ++ (front ++ rest))) (msg ++ (front ++ rest)) r
        ≡ absorb
            (full_blocks rest)
            rest
            (transform (leftover msg ++ front) (absorb (full_blocks msg) msg r))
  unfolding absorb
  absorb-append_full r =
      let whole = msg ++ (front ++ rest) in
      let q = full_blocks msg in
      ap (λ k. absorb k whole r) blocks_split
      ∙ absorb-add q (suc (full_blocks rest)) whole r
      ∙ ap₂ (absorb (suc (full_blocks rest))) behind_blocks
          (absorb-append q msg (front ++ rest) r (omega arith))
      ∙ ap₂ (λ l t. absorb (full_blocks rest) l (transform t (absorb q msg r)))
          (drop-append_eq 64 (leftover msg ++ front) rest length_block)
          (take-append_eq 64 (leftover msg ++ front) rest length_block)

  pub leftover-append_full : leftover (msg ++ (front ++ rest)) ≡ leftover rest
  leftover-append_full =
      let whole = msg ++ (front ++ rest) in
      let q = full_blocks msg in
      let j = full_blocks rest in
      ap (λ k. drop (k * 64) whole) blocks_split
      ∙ ap (λ k. drop k whole) {x = (q + suc j) * 64} {y = q * 64 + (64 + j * 64)} (omega arith)
      ∙ sym (drop-drop (64 + j * 64) (q * 64) whole)
      ∙ ap (drop (64 + j * 64)) behind_blocks
      ∙ sym (drop-drop (j * 64) 64 ((leftover msg ++ front) ++ rest))
      ∙ ap (drop (j * 64)) (drop-append_eq 64 (leftover msg ++ front) rest length_block)
