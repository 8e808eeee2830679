-- ===== src/Md5/Transform.antt =====
-- mac/chatkit/cim/crypt/md5.cpp, the block transformation: `MD5::transform`, the macros F, G, H, I,
-- FF, GG, HH, II and ROTATE_LEFT. `ulong` is `unsigned long`, 64 bits wide on the hosts that the
-- build files name.
use Prim.Native.Nat.{bit_and, bit_or, bit_xor}
use coffee_chat_desktop.Prelude.{ℕ, ◌+◌, ◌-◌, ◌*◌, ◌/◌, ◌%◌, ◌^◌, List, [], ◌∷◌, get_or}

abbrev pub ulong_mod : ℕ
ulong_mod = 2 ^ 64

-- The shift amounts S11 to S44.
abbrev s11 : ℕ
s11 = 7

abbrev s12 : ℕ
s12 = 12

abbrev s13 : ℕ
s13 = 17

abbrev s14 : ℕ
s14 = 22

abbrev s21 : ℕ
s21 = 5

abbrev s22 : ℕ
s22 = 9

abbrev s23 : ℕ
s23 = 14

abbrev s24 : ℕ
s24 = 20

abbrev s31 : ℕ
s31 = 4

abbrev s32 : ℕ
s32 = 11

abbrev s33 : ℕ
s33 = 16

abbrev s34 : ℕ
s34 = 23

abbrev s41 : ℕ
s41 = 6

abbrev s42 : ℕ
s42 = 10

abbrev s43 : ℕ
s43 = 15

abbrev s44 : ℕ
s44 = 21

-- `~x`
bit_not : ℕ → ℕ
bit_not x = ulong_mod - 1 - x % ulong_mod

f_mix : ℕ → ℕ → ℕ → ℕ
unfolding bit_not
f_mix x y z = bit_or (bit_and x y) (bit_and (bit_not x) z)

g_mix : ℕ → ℕ → ℕ → ℕ
unfolding bit_not
g_mix x y z = bit_or (bit_and x z) (bit_and y (bit_not z))

h_mix : ℕ → ℕ → ℕ → ℕ
h_mix x y z = bit_xor (bit_xor x y) z

i_mix : ℕ → ℕ → ℕ → ℕ
unfolding bit_not
i_mix x y z = bit_xor y (bit_or x (bit_not z))

-- `(x << n) | (x >> (32 - n))` on a 64-bit word: no rotation of it.
unfoldable pub rotate_left : ℕ → ℕ → ℕ
rotate_left x n = bit_or (x * 2 ^ n % ulong_mod) (x / 2 ^ (32 - n))

-- The variables a, b, c, d of `transform`.
pub record Regs : Type 0 where
  pub a : ℕ
  pub b : ℕ
  pub c : ℕ
  pub d : ℕ

-- The arguments of one macro call: the index into x, the shift and the constant.
pub data Step : Type 0 where
  step : ℕ → ℕ → ℕ → Step

-- The value that FF, GG, HH or II leaves in its first argument, for F, G, H or I in `mix`.
mixed : (ℕ → ℕ → ℕ → ℕ) → Regs → ℕ → ℕ → ℕ → ℕ
unfolding rotate_left
mixed mix r x s ac =
    (rotate_left ((r.a + (mix r.b r.c r.d + x + ac) % ulong_mod) % ulong_mod) s + r.b) % ulong_mod

-- The calls of a round go (a, b, c, d), (d, a, b, c), (c, d, a, b), (b, c, d, a) and again: each
-- takes the variables of the one before it turned by one place. After sixteen calls each variable
-- stands in its own place.
round : (ℕ → ℕ → ℕ → ℕ) → List Step → List ℕ → Regs → Regs
unfolding mixed
round mix [] x r = r
round mix (step k s ac ∷ rest) x r =
    round mix rest x (record { a = r.d; b = mixed mix r (get_or x k 0) s ac; c = r.b; d = r.c })

round1_steps : List Step
round1_steps =
    step 0 s11 0xd76aa478
    ∷ step 1 s12 0xe8c7b756
    ∷ step 2 s13 0x242070db
    ∷ step 3 s14 0xc1bdceee
    ∷ step 4 s11 0xf57c0faf
    ∷ step 5 s12 0x4787c62a
    ∷ step 6 s13 0xa8304613
    ∷ step 7 s14 0xfd469501
    ∷ step 8 s11 0x698098d8
    ∷ step 9 s12 0x8b44f7af
    ∷ step 10 s13 0xffff5bb1
    ∷ step 11 s14 0x895cd7be
    ∷ step 12 s11 0x6b901122
    ∷ step 13 s12 0xfd987193
    ∷ step 14 s13 0xa679438e
    ∷ step 15 s14 0x49b40821
    ∷ []

round2_steps : List Step
round2_steps =
    step 1 s21 0xf61e2562
    ∷ step 6 s22 0xc040b340
    ∷ step 11 s23 0x265e5a51
    ∷ step 0 s24 0xe9b6c7aa
    ∷ step 5 s21 0xd62f105d
    ∷ step 10 s22 0x2441453
    ∷ step 15 s23 0xd8a1e681
    ∷ step 4 s24 0xe7d3fbc8
    ∷ step 9 s21 0x21e1cde6
    ∷ step 14 s22 0xc33707d6
    ∷ step 3 s23 0xf4d50d87
    ∷ step 8 s24 0x455a14ed
    ∷ step 13 s21 0xa9e3e905
    ∷ step 2 s22 0xfcefa3f8
    ∷ step 7 s23 0x676f02d9
    ∷ step 12 s24 0x8d2a4c8a
    ∷ []

round3_steps : List Step
round3_steps =
    step 5 s31 0xfffa3942
    ∷ step 8 s32 0x8771f681
    ∷ step 11 s33 0x6d9d6122
    ∷ step 14 s34 0xfde5380c
    ∷ step 1 s31 0xa4beea44
    ∷ step 4 s32 0x4bdecfa9
    ∷ step 7 s33 0xf6bb4b60
    ∷ step 10 s34 0xbebfbc70
    ∷ step 13 s31 0x289b7ec6
    ∷ step 0 s32 0xeaa127fa
    ∷ step 3 s33 0xd4ef3085
    ∷ step 6 s34 0x4881d05
    ∷ step 9 s31 0xd9d4d039
    ∷ step 12 s32 0xe6db99e5
    ∷ step 15 s33 0x1fa27cf8
    ∷ step 2 s34 0xc4ac5665
    ∷ []

round4_steps : List Step
round4_steps =
    step 0 s41 0xf4292244
    ∷ step 7 s42 0x432aff97
    ∷ step 14 s43 0xab9423a7
    ∷ step 5 s44 0xfc93a039
    ∷ step 12 s41 0x655b59c3
    ∷ step 3 s42 0x8f0ccc92
    ∷ step 10 s43 0xffeff47d
    ∷ step 1 s44 0x85845dd1
    ∷ step 8 s41 0x6fa87e4f
    ∷ step 15 s42 0xfe2ce6e0
    ∷ step 6 s43 0xa3014314
    ∷ step 13 s44 0x4e0811a1
    ∷ step 4 s41 0xf7537e82
    ∷ step 11 s42 0xbd3af235
    ∷ step 2 s43 0x2ad7d2bb
    ∷ step 9 s44 0xeb86d391
    ∷ []

-- `decode`: four bytes to a word, the low byte first.
unfoldable pub decode : List ℕ → List ℕ
decode (b0 ∷ b1 ∷ b2 ∷ b3 ∷ rest) = (b0 + b1 * 2 ^ 8 + b2 * 2 ^ 16 + b3 * 2 ^ 24) ∷ decode rest
decode _ = []

-- `encode`: the low 32 bits of each word, the low byte first.
unfoldable pub encode : List ℕ → List ℕ
encode [] = []
encode (w ∷ ws) =
    (w % 256) ∷ (w / 2 ^ 8 % 256) ∷ (w / 2 ^ 16 % 256) ∷ (w / 2 ^ 24 % 256) ∷ encode ws

-- `transform` on the words of `_state`.
pub transform : List ℕ → Regs → Regs
unfolding round decode f_mix g_mix h_mix i_mix round1_steps round2_steps round3_steps round4_steps
transform block r =
    let x : List ℕ = decode block in
    let r1 : Regs = round f_mix round1_steps x r in
    let r2 : Regs = round g_mix round2_steps x r1 in
    let r3 : Regs = round h_mix round3_steps x r2 in
    let r4 : Regs = round i_mix round4_steps x r3 in
    record {
      a = (r.a + r4.a) % ulong_mod;
      b = (r.b + r4.b) % ulong_mod;
      c = (r.c + r4.c) % ulong_mod;
      d = (r.d + r4.d) % ulong_mod;
    }
