-- ===== src/Md5.antt =====
-- mac/chatkit/cim/crypt/md5.cpp and md5.h: the MD5 class.
pub mod Transform
pub mod Blocks
pub mod Pieces
pub mod Stream
pub mod Digest
pub mod Hex
use coffee_chat_desktop.Prelude.{
  ℕ, zero, suc, ◌+◌, ◌-◌, ◌*◌, ◌/◌, ◌%◌, ◌^◌, Bool, true, false, List, [], ◌∷◌, ◌++◌, map, Option,
  none, some, if◌then◌else◌, ltb, leb, length, take, drop, get_or, replicate,
}
use coffee_chat_desktop.Prelude.Memory.{blit}
use Transform.{Regs, ulong_mod, transform, encode}

-- `_state` is `regs`; `_count` counts bits.
pub record Md5 : Type 0 where
  pub regs : Regs
  pub count0 : ℕ
  pub count1 : ℕ
  pub buffer : List ℕ
  pub digest : List ℕ
  pub finished : Bool

abbrev pub start_regs : Regs
start_regs = record { a = 0x67452301; b = 0xefcdab89; c = 0x98badcfe; d = 0x10325476 }

-- `reset()` leaves `_buffer` and `_digest` as they are.
unfoldable pub reset : Md5 → Md5
reset m = record m { finished = false; count0 = 0; count1 = 0; regs = start_regs }

-- A new object: the arrays are not initialised; the model takes zeros.
unfoldable pub create : Md5
unfolding reset
create = reset (record {
  regs = record { a = 0; b = 0; c = 0; d = 0 };
  count0 = 0;
  count1 = 0;
  buffer = replicate 64 0;
  digest = replicate 16 0;
  finished = false;
})

-- `for (i = partLen; i + 63 < length; i += 64) transform(&input[i])`, on what `input` has from `i`
-- on. The result is the registers, and the input that is left.
unfoldable pub transform_loop : ℕ → List ℕ → Regs → Regs × List ℕ
transform_loop zero input r = (r, input)
transform_loop (suc fuel) input r =
    let next = transform_loop fuel (drop 64 input) (transform (take 64 input) r) in
    if ltb 63 (length input) then next else (r, input)

-- `index` of `update`: the number of bytes in `_buffer`.
abbrev pub buffered : ℕ → ℕ
buffered count0 = count0 / 8 % 64

-- The new bit count, low word and high word.
abbrev pub bits_of : List ℕ → ℕ
bits_of input = length input * 8 % ulong_mod

unfoldable pub new_count0 : Md5 → List ℕ → ℕ
new_count0 m input = (m.count0 + bits_of input) % ulong_mod

unfoldable pub new_count1 : Md5 → List ℕ → ℕ
unfolding new_count0
new_count1 m input =
    let carried =
      if ltb (new_count0 m input) (bits_of input) then (m.count1 + 1) % ulong_mod else m.count1 in
    (carried + length input / 2 ^ 29) % ulong_mod

-- `update(input, length)`. As each round takes 64 bytes, `length input` rounds are enough.
unfoldable pub update : Md5 → List ℕ → Md5
unfolding new_count0 new_count1 transform_loop
update m input =
    let index = buffered m.count0 in
    let part_len = 64 - index in
    let counted : Md5 = record m {
      finished = false;
      count0 = new_count0 m input;
      count1 = new_count1 m input;
    } in
    if leb part_len (length input)
    then (let full = blit m.buffer index (take part_len input) in
        let rest = drop part_len input in
        let looped = transform_loop (length rest) rest (transform full m.regs) in
        record counted { regs = looped.0; buffer = blit full 0 looped.1 })
    else record counted { buffer = blit m.buffer index input }

unfoldable pub padding : List ℕ
padding = 0x80 ∷ replicate 63 0

abbrev pub words : Regs → List ℕ
words r = r.a ∷ r.b ∷ r.c ∷ r.d ∷ []

abbrev pub pad_len : ℕ → ℕ
pad_len index = if ltb index 56 then 56 - index else 120 - index

-- `final()`. The two `memcpy`s that save and restore copy 16 and 8 bytes: two words of `_state` and
-- one of `_count`, for a word has 8 bytes.
unfoldable pub final : Md5 → Md5
unfolding update padding
final m =
    let bits = encode (m.count0 ∷ m.count1 ∷ []) in
    let padded = update m (take (pad_len (buffered m.count0)) padding) in
    let m' = update padded bits in
    record m' {
      digest = encode (words m'.regs);
      regs = record m'.regs { a = m.regs.a; b = m.regs.b };
      count0 = m.count0;
    }

-- `digest()`: the flag is set before `final()`, whose calls of `update` clear it.
unfoldable pub digest : Md5 → List ℕ × Md5
unfolding final
digest m =
    let m' = if m.finished then m else final (record m { finished = true }) in (m'.digest, m')

abbrev pub hex_digits : List ℕ
hex_digits =
    b'0' ∷ b'1' ∷ b'2' ∷ b'3' ∷ b'4' ∷ b'5' ∷ b'6' ∷ b'7' ∷ b'8' ∷ b'9' ∷ b'a' ∷ b'b' ∷ b'c' ∷ b'd'
    ∷ b'e' ∷ b'f' ∷ []

unfoldable pub bytes_to_hex_string : List ℕ → List ℕ
bytes_to_hex_string [] = []
bytes_to_hex_string (t ∷ ts) =
    get_or hex_digits (t / 16) 0 ∷ get_or hex_digits (t % 16) 0 ∷ bytes_to_hex_string ts

unfoldable pub to_string : Md5 → List ℕ × Md5
unfolding digest bytes_to_hex_string
to_string m = let (d, m') = digest m in (bytes_to_hex_string d, m')

-- `MD5 md; md.update(text); md.toString()`, and `MD5(text).toString()`.
unfoldable pub md5_of : List ℕ → List ℕ
unfolding create update to_string
md5_of text = (to_string (update create text)).0

-- `update(ifstream&)` reads the file in pieces of `BUFFER_SIZE` bytes; an empty read adds nothing.
unfoldable pub update_all : Md5 → List (List ℕ) → Md5
unfolding update
update_all m [] = m
update_all m (piece ∷ pieces) =
    update_all (if ltb 0 (length piece) then update m piece else m) pieces

-- `FileDigest(file)`, by what the file gives; `none` is a file that does not open.
unfoldable pub file_digest : Option (List (List ℕ)) → List ℕ
unfolding create to_string update_all
file_digest none = []
file_digest (some pieces) = (to_string (update_all create pieces)).0
