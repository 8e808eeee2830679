-- ===== src/Tests/Emails.antt =====
-- The conditions of the theorems on the addresses of the login dialog, with a validator that runs.
use coffee_chat_desktop.Prelude.{ℕ, ◌≡◌, ◌≤◌, ◌↔◌, refl, true, false, List, [], ◌∷◌, ◌++◌, length}
use coffee_chat_desktop.Prelude.Text.{codes}
use coffee_chat_desktop.Dialogs.{tips, bad_email, login, login_clicked}
use coffee_chat_desktop.Dialogs.Email.{is_word_char}
use coffee_chat_desktop.Dialogs.Email.Addresses.{
  IsAddress, login_clicked-IsAddress, login_clicked_dotted,
}
use coffee_chat_desktop.Dialogs.Email.Validator.{is_email, is_email_iff}

abbrev same_text : List ℕ → List ℕ
same_text text = text

-- An address with two labels is taken, one with a dot in its first part or without a second label
-- is not.
taken : is_email (codes "ab@c.de") ≡ true
unfolding is_email is_word_char
taken = refl

one_label : is_email (codes "ab@c") ≡ false
unfolding is_email is_word_char
one_label = refl

login_clicked-IsAddress_example :
    (login_clicked is_email same_text (codes "ab@c.de") (codes "pass")
      ≡ login (codes "ab@c.de") (codes "pass") ∷ [])
    ↔ (IsAddress (codes "ab@c.de") × (4 ≤ length (codes "pass")))
login_clicked-IsAddress_example =
    login_clicked-IsAddress is_email same_text is_email_iff (codes "ab@c.de") (codes "pass")

login_clicked_dotted_example :
    login_clicked is_email same_text (codes "a" ++ (b'.' ∷ codes "b@c.de")) (codes "pass")
    ≡ tips bad_email ∷ []
login_clicked_dotted_example =
    login_clicked_dotted is_email same_text is_email_iff (codes "a") (codes "b@c.de") (codes "pass")
      (refl, tt)
