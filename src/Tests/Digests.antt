-- ===== src/Tests/Digests.antt =====
-- Runs of mac/chatkit/cim/crypt/md5.cpp.
use coffee_chat_desktop.Prelude.{ℕ, ◌≡◌, List, [], ◌∷◌, length, replicate, arith}
use coffee_chat_desktop.Md5.{Md5, create, update, digest, md5_of}
use coffee_chat_desktop.Md5.Stream.{Represents, update-Represents, create-Represents}
use coffee_chat_desktop.Md5.Digest.{digest_spec, digest_lem, finished-update}
use coffee_chat_desktop.Md5.Hex.{of_hex, md5_of_lem}

abbrev abc : List ℕ
abc = 97 ∷ 98 ∷ 99 ∷ []

abbrev given_abc : Md5
given_abc = update create abc

abbrev block : List ℕ
block = replicate 65 1

update-Represents_example : Represents abc given_abc
update-Represents_example = update-Represents [] abc create create-Represents (omega arith)

given_abc-Represents : Represents abc given_abc
given_abc-Represents = update-Represents [] abc create create-Represents (omega arith)

digest_lem_example : (digest given_abc).0 ≡ digest_spec abc
digest_lem_example =
    digest_lem abc given_abc given_abc-Represents (finished-update create abc) (omega arith)

md5_of_lem_example : (of_hex (md5_of abc) ≡ digest_spec abc) × (length (md5_of abc) ≡ 32)
md5_of_lem_example = md5_of_lem abc (omega arith)
