-- ===== src/Dialogs/Email.antt =====
-- The regular expression that the login dialog (mac/hellochat/gui/logindialog.cpp) gives to the
-- validator of a name, and the registration dialog to that of an address; with what an expression
-- describes.
pub mod Words
pub mod Addresses
pub mod Validator
use coffee_chat_desktop.Prelude.{ℕ, ◌≡◌, Bool, true, List, [], ◌∷◌, ◌++◌, ◌==◌, ◌&&◌, ◌||◌, leb}

-- The forms of an expression that the source uses.
pub data Regex : Type 0 where
  char_class : (ℕ → Bool) → Regex
  then_follows : Regex → Regex → Regex
  plus : Regex → Regex

-- One or more texts, each as `P` says, one behind the other.
pub data Plus (P : List ℕ → Type 0) : List ℕ → Type 0 where
  once : {s : List ℕ} → P s → Plus P s
  more : {s : List ℕ} (x y : List ℕ) → P x → Plus P y → s ≡ x ++ y → Plus P s

-- All of a text is what the expression describes.
unfoldable pub Matches : Regex → List ℕ → Type 0
Matches (char_class p) s = (c : ℕ) × (s ≡ c ∷ []) × (p c ≡ true)
Matches (then_follows r r') s =
    (x : List ℕ) × (y : List ℕ) × (s ≡ x ++ y) × Matches r x × Matches r' y
Matches (plus r) s = Plus (Matches r) s

-- `[a-zA-Z0-9_-]`
unfoldable pub is_word_char : ℕ → Bool
is_word_char c =
    (leb b'a' c && leb c b'z')
    || ((leb b'A' c && leb c b'Z') || ((leb b'0' c && leb c b'9') || (c == b'_' || c == b'-')))

abbrev pub word : Regex
word = plus (char_class is_word_char)

abbrev pub at_sign : Regex
at_sign = char_class (λ c. c == b'@')

-- `\\.[a-zA-Z0-9_-]+`
abbrev pub dot_word : Regex
dot_word = then_follows (char_class (λ c. c == b'.')) word

-- `^[a-zA-Z0-9_-]+@[a-zA-Z0-9_-]+(\\.[a-zA-Z0-9_-]+)+$`
abbrev pub email : Regex
email = then_follows word (then_follows at_sign (then_follows word (plus dot_word)))
