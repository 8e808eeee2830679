-- ===== src/Md5/Digest.antt =====
-- `final`, `digest` and `toString` of mac/chatkit/cim/crypt/md5.cpp against the padded message.
use coffee_chat_desktop.Prelude.{
  ℕ, ◌+◌, ◌*◌, ◌%◌, ◌≤◌, ◌<◌, ◌≡◌, refl, sym, ap, ap₂, List, [], ◌∷◌, ◌++◌, length, take, ltb,
  subst, arith, length-take, Bool, true, false, length-append, if◌then◌else◌,
}
use coffee_chat_desktop.Md5.{
  Md5, start_regs, create, update, update_all, padding, pad_len, digest, words, buffered,
}
use coffee_chat_desktop.Md5.Transform.{Regs, encode}
use coffee_chat_desktop.Md5.Blocks.{absorb, full_blocks}
use coffee_chat_desktop.Md5.Stream.{
  Represents, message_limit, update-Represents, create-Represents, joined, update_all-Represents,
}

-- The message as the blocks see it: a byte 0x80, zeros up to 8 bytes short of a block, and the bit
-- count.
abbrev pub padded : List ℕ → List ℕ
padded msg = (msg ++ take (pad_len (length msg % 64)) padding) ++ encode (length msg * 8 ∷ 0 ∷ [])

-- The digest of a message: the block function over all of it at once.
abbrev pub digest_spec : List ℕ → List ℕ
digest_spec msg = encode (words (absorb (full_blocks (padded msg)) (padded msg) start_regs))

pad_length : (msg : List ℕ) → length (take (pad_len (length msg % 64)) padding) ≤ 120
unfolding padding
pad_length msg = ground (arith, length-take (pad_len (length msg % 64)) padding)

length-encode2 : (x y : ℕ) → length (encode (x ∷ y ∷ [])) ≡ 8
unfolding encode
length-encode2 x y = refl

-- The padding fills the last block: with its bit count a message is a whole number of blocks.
pub padded-blocks : (msg : List ℕ) → length (padded msg) % 64 ≡ 0
unfolding padding
padded-blocks msg = ground (
  arith,
  length-append (msg ++ take (pad_len (length msg % 64)) padding)
      (encode (length msg * 8 ∷ 0 ∷ [])),
  length-append msg (take (pad_len (length msg % 64)) padding),
  length-take (pad_len (length msg % 64)) padding,
  length-encode2 (length msg * 8) 0,
)

-- The object just before `final` stores the digest.
padded_by : Md5 → ℕ → List ℕ → Md5
padded_by m index bits = update (update m (take (pad_len index) padding)) bits

abbrev final_padded : Md5 → Md5
final_padded m = padded_by m (buffered m.count0) (encode (m.count0 ∷ m.count1 ∷ []))

-- It stands for the padded message.
module _ (msg : List ℕ) (m : Md5) (rep : Represents msg m)
    (h : length msg + 128 < message_limit) where
  padded_by-Represents :
      Represents (padded msg) (padded_by m (length msg % 64) (encode (length msg * 8 ∷ 0 ∷ [])))
  unfolding padded_by
  padded_by-Represents =
      let pad = take (pad_len (length msg % 64)) padding in
      update-Represents (msg ++ pad) (encode (length msg * 8 ∷ 0 ∷ [])) (update m pad)
        (update-Represents msg pad m rep (omega (arith, pad_length msg)))
        (omega (arith, pad_length msg, length-append msg pad, length-encode2 (length msg * 8) 0))

  final_padded-Represents : Represents (padded msg) (final_padded m)
  final_padded-Represents =
      let e : buffered m.count0 ≡ length msg % 64 = omega (arith, rep.low) in
      let bits : encode (m.count0 ∷ m.count1 ∷ []) ≡ encode (length msg * 8 ∷ 0 ∷ []) =
        ap₂ (λ x y. encode (x ∷ y ∷ [])) rep.low rep.high in
      subst (Represents (padded msg)) (sym (ap₂ (padded_by m) e bits)) padded_by-Represents

pub finished-update : (m : Md5) (input : List ℕ) → (update m input).finished ≡ false
unfolding update
finished-update m input = ground arith

finished-create : create.finished ≡ false
unfolding create
finished-create = refl

finished-update_all :
    (pieces : List (List ℕ)) (m : Md5) → m.finished ≡ false → (update_all m pieces).finished ≡ false
unfolding update_all
finished-update_all [] m f = f
finished-update_all (p ∷ ps) m f = finished-update_all ps _ (one (ltb 0 (length p)))
  where
    one : (b : Bool) → (if b then update m p else m).finished ≡ false
    one true = finished-update m p
    one false = f

started :
    (msg : List ℕ) (m : Md5) → Represents msg m → Represents msg (record m { finished = true })
started msg m rep = record {
  regs = rep.regs;
  size = rep.size;
  live = rep.live;
  low = rep.low;
  high = rep.high;
}

-- For an object that stands for a message, up to the limit of 2^29 bytes, and whose digest is
-- not marked as finished, `digest` returns the block function over the padded message, whatever
-- pieces the message came in.
pub digest_lem :
    (msg : List ℕ) (m : Md5)
    → Represents msg m
    → m.finished ≡ false
    → length msg + 128 < message_limit
    → (digest m).0 ≡ digest_spec msg
unfolding digest padded_by
digest_lem msg m rep f h =
    let r = final_padded-Represents msg (record m { finished = true }) (started msg m rep) h in
    rw f (ap (λ t. encode (words t)) r.regs)

-- Bytes read in pieces, as from a file, and then digested give the digest of the whole, up to the
-- limit of 2^29 bytes.
pub digest-update_all :
    (pieces : List (List ℕ))
    → length (joined pieces) + 128 < message_limit
    → (digest (update_all create pieces)).0 ≡ digest_spec (joined pieces)
digest-update_all pieces h =
    digest_lem (joined pieces) (update_all create pieces)
      (update_all-Represents pieces [] create create-Represents (omega arith))
      (finished-update_all pieces create finished-create) h

-- What `digest` leaves of an object that stands for a message up to the limit of 2^29 bytes: the
-- flag that is to keep the result is clear again; of the state that `final` saved the first two
-- words and the low counter are back, and the other two words are those of the padded message.
pub after_digest :
    (msg : List ℕ) (m : Md5)
    → Represents msg m
    → m.finished ≡ false
    → length msg + 128 < message_limit
    → let m' = (digest m).1 in
      let r = absorb (full_blocks (padded msg)) (padded msg) start_regs in
      (m'.finished ≡ false)
      × (m'.count0 ≡ m.count0)
      × (m'.regs ≡ record r { a = m.regs.a; b = m.regs.b })
unfolding digest padded_by
after_digest msg m rep f h =
    let r = final_padded-Represents msg (record m { finished = true }) (started msg m rep) h in
    let restored : Regs → Regs = λ t. record t { a = m.regs.a; b = m.regs.b } in
    let half = update (record m { finished = true }) (take (pad_len (buffered m.count0)) padding) in
    rw f (finished-update half (encode (m.count0 ∷ m.count1 ∷ [])), refl, ap restored r.regs)
