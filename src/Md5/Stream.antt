-- ===== src/Md5/Stream.antt =====
-- `update` of mac/chatkit/cim/crypt/md5.cpp takes a message in pieces: an object stands for the
-- bytes that it has been given.
use coffee_chat_desktop.Prelude.{
  ℕ, suc, ◌+◌, ◌-◌, ◌*◌, ◌%◌, ◌^◌, ◌≤◌, ◌<◌, ◌≡◌, refl, sym, ap, ap₂, ◌∙◌, inl, inr, List, [], ◌∷◌,
  ◌++◌, true, false, take_all, length, take, drop, leb, Bool-cases, leb→le, subst, append-nil,
  if◌then◌else◌, ltb, arith, length-take, length-append, append_assoc, take-append-drop,
}
use coffee_chat_desktop.Prelude.Memory.{
  blit, length-blit, window-blit_after, window-blit_self, drop-append_eq, take-append_eq,
}
use coffee_chat_desktop.Md5.{
  Md5, start_regs, create, buffered, new_count0, new_count1, update, update_all,
}
use coffee_chat_desktop.Md5.Transform.{transform}
use coffee_chat_desktop.Md5.Blocks.{absorb, full_blocks, leftover, transform_loop_lem}
use coffee_chat_desktop.Md5.Pieces.{
  length-leftover, leftover-append_short, absorb-append_short, length_block, absorb-append_full,
  leftover-append_full,
}

-- The object has been given the bytes of `msg`: its registers are those behind the full blocks, the
-- buffer starts with the bytes behind them, and the counters count the bits.
pub record Represents (msg : List ℕ) (m : Md5) : Type 0 where
  pub regs : m.regs ≡ absorb (full_blocks msg) msg start_regs
  pub size : length m.buffer ≡ 64
  pub live : take (length msg % 64) m.buffer ≡ leftover msg
  pub low : m.count0 ≡ length msg * 8
  pub high : m.count1 ≡ 0

abbrev pub message_limit : ℕ
message_limit = 2 ^ 29

module _ (msg : List ℕ) (m : Md5) (rep : Represents msg m) where
  count0_lem :
      (input : List ℕ)
      → length msg + length input < message_limit
      → new_count0 m input ≡ length (msg ++ input) * 8
  unfolding new_count0
  count0_lem input h = omega (arith, rep.low, length-append msg input)

  count1_lem : (input : List ℕ) → length msg + length input < message_limit → new_count1 m input ≡ 0
  unfolding new_count1
  count1_lem input h = ground (arith, rep.low, rep.high)

  -- What the buffer starts with once `d` is copied behind the live bytes.
  copied :
      (d : List ℕ)
      → length msg % 64 + length d ≤ 64
      → take (length msg % 64 + length d) (blit m.buffer (length msg % 64) d) ≡ leftover msg ++ d
  copied d h =
      ap (λ k. take (length msg % 64 + length d) (blit m.buffer k d)) {x = length msg % 64}
        {y = 0 + length msg % 64} (omega arith)
      ∙ window-blit_after m.buffer 0 (length msg % 64) d (omega (arith, rep.size))
      ∙ ap (λ l. l ++ d) rep.live

  update_short_eq :
      (input : List ℕ)
      → length msg % 64 + length input < 64
      → update m input ≡ record m {
        finished = false;
        count0 = new_count0 m input;
        count1 = new_count1 m input;
        buffer = blit m.buffer (length msg % 64) input;
      }
  unfolding update
  update_short_eq input s =
      let e : buffered m.count0 ≡ length msg % 64 = omega (arith, rep.low) in
      let b : leb (64 - length msg % 64) (length input) ≡ false = ground arith in rw (e, b)

  update_short :
      (input : List ℕ)
      → length msg + length input < message_limit
      → length msg % 64 + length input < 64
      → Represents (msg ++ input) (update m input)
  update_short input h s = rw (update_short_eq input s) (record {
    regs = rep.regs ∙ sym (absorb-append_short msg input start_regs s);
    size = length-blit m.buffer (length msg % 64) input (omega (arith, rep.size)) ∙ rep.size;
    live =
        ap (λ k. take k (blit m.buffer (length msg % 64) input)) {x = length (msg ++ input) % 64}
          {y = length msg % 64 + length input} (omega (arith, length-append msg input))
        ∙ copied input (omega arith)
        ∙ sym (leftover-append_short msg input s);
    low = count0_lem input h;
    high = count1_lem input h;
  })

  -- The buffer when `front` has filled it: exactly the block that the message ends its run with.
  filled : List ℕ → List ℕ
  filled front = blit m.buffer (length msg % 64) front

  filled_lem :
      (front : List ℕ) → length msg % 64 + length front ≡ 64 → filled front ≡ leftover msg ++ front
  unfolding filled
  filled_lem front fill =
      sym (
        take_all 64 (filled front) (
          omega (
            arith,
            length-blit m.buffer (length msg % 64) front (omega (arith, rep.size)),
            rep.size,
          )))
      ∙ ap (λ k. take k (filled front)) {x = 64} {y = length msg % 64 + length front} (omega arith)
      ∙ copied front (omega arith)

  length-filled :
      (front rest : List ℕ) → length msg % 64 + length front ≡ 64 → length (filled front) ≡ 64
  length-filled front rest fill =
      ap length (filled_lem front fill) ∙ sym (length_block msg front rest fill)

  -- The rest behind the last block fits into the buffer.
  leftover-fits :
      (front rest : List ℕ)
      → length msg % 64 + length front ≡ 64
      → 0 + length (leftover rest) ≤ length (filled front)
  leftover-fits front rest fill = omega (arith, length-filled front rest fill, length-leftover rest)

  update_full_eq :
      (front rest : List ℕ)
      → length msg % 64 + length front ≡ 64
      → update m (front ++ rest) ≡ record m {
        finished = false;
        count0 = new_count0 m (front ++ rest);
        count1 = new_count1 m (front ++ rest);
        regs = absorb (full_blocks rest) rest (transform (filled front) m.regs);
        buffer = blit (filled front) 0 (leftover rest);
      }
  unfolding update filled
  update_full_eq front rest fill =
      let e : buffered m.count0 ≡ length msg % 64 = omega (arith, rep.low) in
      let b : leb (64 - length msg % 64) (length (front ++ rest)) ≡ true =
        ground (arith, length-append front rest) in
      let t : take (64 - length msg % 64) (front ++ rest) ≡ front =
        take-append_eq (64 - length msg % 64) front rest (omega arith) in
      let d : drop (64 - length msg % 64) (front ++ rest) ≡ rest =
        drop-append_eq (64 - length msg % 64) front rest (omega arith) in
      let l =
        transform_loop_lem (length rest) rest (transform (filled front) m.regs) (omega arith) in
      rw (e, b, t, d, l)

  update_full :
      (front rest : List ℕ)
      → length msg + length (front ++ rest) < message_limit
      → length msg % 64 + length front ≡ 64
      → Represents (msg ++ (front ++ rest)) (update m (front ++ rest))
  update_full front rest h fill = rw (update_full_eq front rest fill) (record {
    regs =
        ap₂ (λ t r. absorb (full_blocks rest) rest (transform t r)) (filled_lem front fill) rep.regs
        ∙ sym (absorb-append_full msg front rest fill start_regs);
    size =
        length-blit (filled front) 0 (leftover rest) (leftover-fits front rest fill)
        ∙ length-filled front rest fill;
    live =
        ap (λ k. take k (blit (filled front) 0 (leftover rest)))
          {x = length (msg ++ (front ++ rest)) % 64} {y = length (leftover rest)}
          (omega (
            arith,
            length-leftover rest,
            length-append msg (front ++ rest),
            length-append front rest,
          ))
        ∙ window-blit_self (filled front) 0 (leftover rest) (leftover-fits front rest fill)
        ∙ sym (leftover-append_full msg front rest fill);
    low = count0_lem (front ++ rest) h;
    high = count1_lem (front ++ rest) h;
  })

-- An object that stands for `msg` stands, after `update`, for `msg` with the new bytes behind it:
-- whether the bytes fill the buffer or not, and however many blocks they hold, up to the limit of
-- 2^29 bytes.
pub update-Represents :
    (msg input : List ℕ) (m : Md5)
    → Represents msg m
    → length msg + length input < message_limit
    → Represents (msg ++ input) (update m input)
update-Represents msg input m rep h =
    let i = length msg % 64 in
    elim (Bool-cases (leb (64 - i) (length input))) [
      | inl full ↦
          let front = take (64 - i) input in
          let rest = drop (64 - i) input in
          let e : front ++ rest ≡ input = take-append-drop (64 - i) input in
          subst (λ l. Represents (msg ++ l) (update m l)) e
            (update_full msg m rep front rest (omega (arith, ap length e))
              (omega (arith, length-take (64 - i) input, leb→le _ _ full)))
      | inr short ↦ update_short msg m rep input h (ground arith)
    ]

pub create-Represents : Represents [] create
unfolding create absorb
create-Represents = record { regs = refl; size = refl; live = refl; low = refl; high = refl }

abbrev pub joined : List (List ℕ) → List ℕ
joined [] = []
joined (p ∷ ps) = p ++ joined ps

piece-Represents :
    (msg q : List ℕ) (m : Md5)
    → Represents msg m
    → length msg + length q < message_limit
    → Represents (msg ++ q) (if ltb 0 (length q) then update m q else m)
piece-Represents msg [] m rep h = rw append-nil rep
piece-Represents msg (x ∷ q) m rep h =
    let nonempty : ltb 0 (suc (length q)) ≡ true = ground arith in
    rw nonempty (update-Represents msg (x ∷ q) m rep h)

-- Reading in pieces, empty ones included, comes to the pieces joined, up to the limit of 2^29
-- bytes.
pub update_all-Represents :
    (pieces : List (List ℕ)) (msg : List ℕ) (m : Md5)
    → Represents msg m
    → length msg + length (joined pieces) < message_limit
    → Represents (msg ++ joined pieces) (update_all m pieces)
unfolding update_all
update_all-Represents [] msg m rep h = rw append-nil rep
update_all-Represents (p ∷ ps) msg m rep h =
    let next : Md5 = if ltb 0 (length p) then update m p else m in
    let given : Represents (msg ++ p) next =
      piece-Represents msg p m rep (omega (arith, length-append p (joined ps))) in
    subst (λ l. Represents l (update_all next ps)) (append_assoc msg p (joined ps))
      (update_all-Represents ps (msg ++ p) next given
        (omega (arith, length-append msg p, length-append p (joined ps))))
