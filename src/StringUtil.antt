-- ===== src/StringUtil.antt =====
-- mac/chatkit/cim/base/util/string_util.cpp: the two conversions by `std::wstring_convert` with
-- `std::codecvt_utf8<wchar_t>`. A `wchar_t` of the hosts has 32 bits and holds a code point; `none`
-- is the `std::range_error` that the conversion throws.
pub mod Points
pub mod RoundTrip
use coffee_chat_desktop.Prelude.{
  ℕ, zero, suc, ◌+◌, ◌-◌, ◌*◌, ◌/◌, ◌%◌, List, [], ◌∷◌, ◌++◌, Option, none, some, if◌then◌else◌,
  ltb, leb, ◌==◌, ◌&&◌, Bool,
}

-- Behind a result: one more element in front.
abbrev pub cons_to : ℕ → Option (List ℕ) → Option (List ℕ)
cons_to c none = none
cons_to c (some cs) = some (c ∷ cs)

-- What a first byte says: how many bytes follow, the bounds of the first of them, and its own bits.
abbrev pub Lead : Type 0
Lead = ℕ × ℕ × ℕ × ℕ

unfoldable pub lead : ℕ → Option Lead
lead c =
    if ltb c 128
    then some (0, 0, 0, c)
    else (if ltb c 194
        then none
        else (if ltb c 224
            then some (1, 128, 191, c - 192)
            else (if c == 224
                then some (2, 160, 191, 0)
                else (if c == 237
                    then some (2, 128, 159, 13)
                    else (if ltb c 240
                        then some (2, 128, 191, c - 224)
                        else (if c == 240
                            then some (3, 144, 191, 0)
                            else (if ltb c 244
                                then some (3, 128, 191, c - 240)
                                else (if c == 244 then some (3, 128, 143, 4) else none))))))))

-- `need` bytes are still to come, the next one from `lo` to `hi`, and `acc` has the bits so far. A
-- text that ends within a code point is refused.
unfoldable pub decode : ℕ → ℕ → ℕ → ℕ → List ℕ → Option (List ℕ)
unfolding lead
decode zero lo hi acc [] = some []
decode (suc need) lo hi acc [] = none
decode zero lo hi acc (c ∷ cs) = elim (lead c) [
  | none ↦ none
  | some (zero, lo', hi', acc') ↦ cons_to acc' (decode 0 0 0 0 cs)
  | some (suc need', lo', hi', acc') ↦ decode (suc need') lo' hi' acc' cs
]
decode (suc zero) lo hi acc (c ∷ cs) = elim (leb lo c && leb c hi) [
  | Bool.true ↦ cons_to (acc * 64 + (c - 128)) (decode 0 0 0 0 cs)
  | Bool.false ↦ none
]
decode (suc (suc need)) lo hi acc (c ∷ cs) = elim (leb lo c && leb c hi) [
  | Bool.true ↦ decode (suc need) 128 191 (acc * 64 + (c - 128)) cs
  | Bool.false ↦ none
]

-- `UTF8ToUTF16(str)`
unfoldable pub utf8_to_utf16 : List ℕ → Option (List ℕ)
unfolding decode
utf8_to_utf16 bytes = decode 0 0 0 0 bytes

-- The bytes of a code point; a surrogate has none, and there is none from 0x110000 on.
unfoldable pub encode_point : ℕ → Option (List ℕ)
encode_point c =
    if ltb c 0x80
    then some (c ∷ [])
    else (if ltb c 0x800
        then some ((192 + c / 64) ∷ (128 + c % 64) ∷ [])
        else (if leb 0xd800 c && ltb c 0xe000
            then none
            else (if ltb c 0x10000
                then some ((224 + c / 4096) ∷ (128 + c / 64 % 64) ∷ (128 + c % 64) ∷ [])
                else (if ltb c 0x110000
                    then some (
                        (240 + c / 262144)
                        ∷ (128 + c / 4096 % 64)
                        ∷ (128 + c / 64 % 64)
                        ∷ (128 + c % 64)
                        ∷ [])
                    else none))))

-- `ws2s(wstr)`
unfoldable pub ws2s : List ℕ → Option (List ℕ)
unfolding encode_point
ws2s [] = some []
ws2s (c ∷ cs) = elim (encode_point c) [
  | none ↦ none
  | some front ↦ elim (ws2s cs) [ none ↦ none | some rest ↦ some (front ++ rest) ]
]
