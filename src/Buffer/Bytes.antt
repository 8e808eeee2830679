-- ===== src/Buffer/Bytes.antt =====
-- The bytes of an integer in network and host order, and `evppbswap_64` of
-- mac/chatkit/cim/base/buffer.h.
use coffee_chat_desktop.Prelude.{
  ℕ, zero, suc, ◌+◌, ◌*◌, ◌/◌, ◌%◌, ◌^◌, ◌<◌, ◌≡◌, refl, List, [], ◌∷◌, length, ap, ap₂, ◌∙◌, arith,
  All,
}

-- The low `k` bytes of `x`, most significant first: `htonl(x)` or `htons(x)` as it lies in memory.
abbrev pub be_bytes : ℕ → ℕ → List ℕ
be_bytes zero x = []
be_bytes (suc k) x = (x / 256 ^ k % 256) ∷ be_bytes k x

abbrev pub of_be_from : ℕ → List ℕ → ℕ
of_be_from acc [] = acc
of_be_from acc (b ∷ bs) = of_be_from (acc * 256 + b) bs

-- The integer whose bytes these are, most significant first: `ntohl` of what was copied.
abbrev pub of_be : List ℕ → ℕ
of_be bs = of_be_from 0 bs

-- The `k` bytes of an integer in the memory of a little-endian host, and the integer of such bytes.
abbrev pub le_bytes : ℕ → ℕ → List ℕ
le_bytes zero x = []
le_bytes (suc k) x = (x % 256) ∷ le_bytes k (x / 256)

abbrev pub of_le : List ℕ → ℕ
of_le [] = 0
of_le (b ∷ bs) = b + 256 * of_le bs

-- `x & (0xff << k)` is `x / 2 ^ k % 256 * 2 ^ k`; the masked parts are disjoint, so `|` adds them.
unfoldable pub bswap64 : ℕ → ℕ
bswap64 x =
    x / 2 ^ 56 % 256 * 2 ^ 56 / 2 ^ 56
    + x / 2 ^ 48 % 256 * 2 ^ 48 / 2 ^ 40
    + x / 2 ^ 40 % 256 * 2 ^ 40 / 2 ^ 24
    + x / 2 ^ 32 % 256 * 2 ^ 32 / 2 ^ 8
    + x / 2 ^ 24 % 256 * 2 ^ 24 * 2 ^ 8 % 2 ^ 64
    + x / 2 ^ 16 % 256 * 2 ^ 16 * 2 ^ 24 % 2 ^ 64
    + x / 2 ^ 8 % 256 * 2 ^ 8 * 2 ^ 40 % 2 ^ 64
    + x % 256 * 2 ^ 56 % 2 ^ 64

pub of_be-be_bytes4 : (x : ℕ) → x < 2 ^ 32 → of_be (be_bytes 4 x) ≡ x
of_be-be_bytes4 x h = omega arith

pub of_be-be_bytes2 : (x : ℕ) → x < 2 ^ 16 → of_be (be_bytes 2 x) ≡ x
of_be-be_bytes2 x h = omega arith

-- The swap reads the bytes of its argument in the opposite order.
bswap64-of_le-be : (x : ℕ) → bswap64 x ≡ of_le (be_bytes 8 x)
unfolding bswap64
bswap64-of_le-be x = omega arith

le_bytes-of_le : (bs : List ℕ) → All (λ b. b < 256) bs → le_bytes (length bs) (of_le bs) ≡ bs
le_bytes-of_le [] h = refl
le_bytes-of_le (b ∷ bs) h =
    ap₂ ◌∷◌ (omega arith) (ap (le_bytes (length bs)) (omega arith) ∙ le_bytes-of_le bs h.1)

-- The swapped integer lies in memory with its most significant byte first.
pub le_bytes-bswap64 : (x : ℕ) → le_bytes 8 (bswap64 x) ≡ be_bytes 8 x
le_bytes-bswap64 x =
    ap (le_bytes 8) (bswap64-of_le-be x) ∙ le_bytes-of_le (be_bytes 8 x) (omega arith)

bswap64-of_be-le : (y : ℕ) → bswap64 y ≡ of_be (le_bytes 8 y)
unfolding bswap64
bswap64-of_be-le y = omega arith

pub of_be-be_bytes8 : (x : ℕ) → x < 2 ^ 64 → of_be (be_bytes 8 x) ≡ x
of_be-be_bytes8 x h = omega arith

-- Swapping what lies in memory most significant byte first gives the integer back.
pub bswap64-of_le : (x : ℕ) → x < 2 ^ 64 → bswap64 (of_le (be_bytes 8 x)) ≡ x
bswap64-of_le x h =
    bswap64-of_be-le (of_le (be_bytes 8 x))
    ∙ ap of_be (le_bytes-of_le (be_bytes 8 x) (omega arith))
    ∙ of_be-be_bytes8 x h

pub length-be_bytes : (k x : ℕ) → length (be_bytes k x) ≡ k
length-be_bytes zero x = refl
length-be_bytes (suc k) x = ap suc (length-be_bytes k x)
