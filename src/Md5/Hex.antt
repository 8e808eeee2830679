-- ===== src/Md5/Hex.antt =====
-- `bytesToHexString` and `toString` of mac/chatkit/cim/crypt/md5.cpp.
use coffee_chat_desktop.Prelude.{
  ℕ, zero, suc, ◌+◌, ◌-◌, ◌*◌, ◌/◌, ◌%◌, ◌<◌, ◌≡◌, refl, sym, ap, ap₂, some, ◌∙◌, List, [], ◌∷◌,
  length, get_or, All, ltb, if◌then◌else◌, arith,
}
use coffee_chat_desktop.Md5.{
  create, update, hex_digits, bytes_to_hex_string, digest, to_string, md5_of, file_digest,
}
use coffee_chat_desktop.Md5.Transform.{encode}
use coffee_chat_desktop.Md5.Stream.{message_limit, update-Represents, create-Represents, joined}
use coffee_chat_desktop.Md5.Digest.{digest_spec, digest_lem, finished-update, digest-update_all}

-- The value of a hexadecimal digit, and the bytes of a string of them.
abbrev hex_value : ℕ → ℕ
hex_value c = if ltb c b'a' then c - b'0' else c - b'a' + 10

pub of_hex : List ℕ → List ℕ
of_hex (h ∷ l ∷ rest) = (hex_value h * 16 + hex_value l) ∷ of_hex rest
of_hex _ = []

-- The digits stand for `n`, `n + 1` and so on.
abbrev CountUp : ℕ → List ℕ → Type 0
CountUp n [] = Unit {0}
CountUp n (d ∷ ds) = (hex_value d ≡ n) × CountUp (suc n) ds

hex_value-get_or :
    (n : ℕ) (ds : List ℕ) (x : ℕ) → CountUp n ds → x < length ds → hex_value (get_or ds x 0) ≡ n + x
hex_value-get_or n [] x c h = absurd (omega (arith, h))
hex_value-get_or n (d ∷ ds) zero c h = omega (arith, c.0)
hex_value-get_or n (d ∷ ds) (suc x) c h =
    omega (arith, hex_value-get_or (suc n) ds x c.1 (omega (arith, h)))

hex_digits-CountUp : CountUp 0 hex_digits
hex_digits-CountUp = ground arith

hex_value-digit : (x : ℕ) → x < 16 → hex_value (get_or hex_digits x 0) ≡ x
hex_value-digit x h = omega (arith, hex_value-get_or 0 hex_digits x hex_digits-CountUp h)

-- The hexadecimal string of a list of bytes below 256 gives the bytes back, and has two digits
-- for each.
pub of_hex-bytes_to_hex_string :
    (bs : List ℕ)
    → All (λ b. b < 256) bs
    → (of_hex (bytes_to_hex_string bs) ≡ bs) × (length (bytes_to_hex_string bs) ≡ 2 * length bs)
unfolding of_hex bytes_to_hex_string
of_hex-bytes_to_hex_string [] h = (refl, refl)
of_hex-bytes_to_hex_string (b ∷ bs) (hb, hbs) =
    let (back, size) = of_hex-bytes_to_hex_string bs hbs in
    (
      ap₂ ◌∷◌
          (omega
            (arith, hex_value-digit (b / 16) (omega arith), hex_value-digit (b % 16) (omega arith)))
          back,
      omega (arith, size),
    )

encode-IsByte : (ws : List ℕ) → All (λ b. b < 256) (encode ws)
unfolding encode
encode-IsByte [] = tt
encode-IsByte (w ∷ ws) =
    (omega arith, (omega arith, (omega arith, (omega arith, encode-IsByte ws))))

length-encode4 : (a b c d : ℕ) → length (encode (a ∷ b ∷ c ∷ d ∷ [])) ≡ 16
unfolding encode
length-encode4 a b c d = refl

digest-update_create :
    (text : List ℕ)
    → length text + 128 < message_limit
    → (digest (update create text)).0 ≡ digest_spec text
digest-update_create text h =
    digest_lem text (update create text)
      (update-Represents [] text create create-Represents (omega arith))
      (finished-update create text) h

-- The password string that goes to the server: 32 hexadecimal digits, which read back as the digest
-- of the text, up to the limit of 2^29 bytes.
pub md5_of_lem :
    (text : List ℕ)
    → length text + 128 < message_limit
    → (of_hex (md5_of text) ≡ digest_spec text) × (length (md5_of text) ≡ 32)
unfolding md5_of to_string
md5_of_lem text h =
    let (back, size) = of_hex-bytes_to_hex_string (digest_spec text) (encode-IsByte _) in
    rw (digest-update_create text h) (back, size ∙ ap (λ n. 2 * n) (length-encode4 _ _ _ _))

-- The digest of a file that opens is the string of its bytes, in whatever pieces they are read, up
-- to the limit of 2^29 bytes.
pub file_digest-md5_of :
    (pieces : List (List ℕ))
    → length (joined pieces) + 128 < message_limit
    → file_digest (some pieces) ≡ md5_of (joined pieces)
unfolding file_digest md5_of to_string
file_digest-md5_of pieces h =
    ap bytes_to_hex_string
      (digest-update_all pieces h ∙ sym (digest-update_create (joined pieces) h))
