-- ===== src/Dialogs/Email/Addresses.antt =====
-- Which addresses the dialogs of mac/hellochat/gui take.
use coffee_chat_desktop.Prelude.{
  ℕ, ◌≤◌, ◌≡◌, ◌↔◌, refl, sym, ap, ◌∙◌, Bool, true, false, List, [], ◌∷◌, ◌++◌, length, All, arith,
  ==_iff, ◌==◌, append-nil, inl, inr, Bool-cases,
}
use coffee_chat_desktop.Dialogs.{tips, bad_email, login, login_clicked}
use coffee_chat_desktop.Dialogs.Clicks.{login_clicked_iff}
use coffee_chat_desktop.Dialogs.Email.{Plus, once, more, Matches, is_word_char, dot_word, email}
use coffee_chat_desktop.Dialogs.Email.Words.{IsWord, word_chars, word_iff}

-- The labels, each with a dot in front.
unfoldable pub dotted : List (List ℕ) → List ℕ
dotted [] = []
dotted (l ∷ ls) = b'.' ∷ (l ++ dotted ls)

dot_word_iff : (s : List ℕ) → Matches dot_word s ↔ ((l : List ℕ) × (s ≡ b'.' ∷ l) × IsWord l)
unfolding Matches
dot_word_iff s = (
  λ (x, y, e, (c, f, d), w).
      let same : c ≡ b'.' = (==_iff c b'.').0 d in (y, e ∙ rw (f, same) refl, (word_iff y).0 w),
  λ (l, e, w). (b'.' ∷ [], l, e, (b'.', refl, refl), (word_iff l).1 w),
)

abbrev Labels : List ℕ → Type 0
Labels s = (ls : List (List ℕ)) × (s ≡ dotted ls) × (1 ≤ length ls) × All IsWord ls

dotted-Plus : (s : List ℕ) → Plus (Matches dot_word) s → Labels s
unfolding dotted
dotted-Plus s (once m) =
    let (l, e, w) = (dot_word_iff s).0 m in
    (l ∷ [], e ∙ ap (λ t. b'.' ∷ t) (sym (append-nil l)), omega arith, (w, tt))
dotted-Plus s (more x y m rest e) =
    let (l, f, w) = (dot_word_iff x).0 m in
    let (ls, g, n, ws) = dotted-Plus y rest in (l ∷ ls, e ∙ rw (f, g) refl, omega arith, (w, ws))

Plus-dotted :
    (l : List ℕ) (ls : List (List ℕ))
    → All IsWord (l ∷ ls)
    → Plus (Matches dot_word) (dotted (l ∷ ls))
unfolding dotted
Plus-dotted l [] (w, ws) = once ((dot_word_iff _).1 (l, ap (λ t. b'.' ∷ t) (append-nil l), w))
Plus-dotted l (m ∷ ls) (w, ws) =
    more (b'.' ∷ l) (dotted (m ∷ ls)) ((dot_word_iff _).1 (l, refl, w)) (Plus-dotted m ls ws) refl

labels-Plus :
    (ls : List (List ℕ)) → 1 ≤ length ls → All IsWord ls → Plus (Matches dot_word) (dotted ls)
labels-Plus [] n ws = absurd (omega (arith, n))
labels-Plus (l ∷ ls) n ws = Plus-dotted l ls ws

-- A word, an at sign, and two labels or more with dots between them.
pub record IsAddress (s : List ℕ) : Type 0 where
  pub user : List ℕ
  pub label : List ℕ
  pub labels : List (List ℕ)
  pub parts : s ≡ user ++ (b'@' ∷ (label ++ dotted labels))
  pub user_word : IsWord user
  pub label_word : IsWord label
  pub more_labels : 1 ≤ length labels
  pub label_words : All IsWord labels

pub email_iff : (s : List ℕ) → Matches email s ↔ IsAddress s
unfolding Matches
email_iff s = (
  λ (u, r, e, wu, (a, d, f, (c, g, at), (l, t, h, wl, ls))).
      let same : c ≡ b'@' = (==_iff c b'@').0 at in
      let (labels, k, n, ws) = dotted-Plus t ls in
      record {
        user = u;
        label = l;
        labels = labels;
        parts = e ∙ rw (f, g, same, h, k) refl;
        user_word = (word_iff u).0 wu;
        label_word = (word_iff l).0 wl;
        more_labels = n;
        label_words = ws;
      },
  λ q. (
    q.user,
    b'@' ∷ (q.label ++ dotted q.labels),
    q.parts,
    (word_iff q.user).1 q.user_word,
    (
      b'@' ∷ [],
      q.label ++ dotted q.labels,
      refl,
      (b'@', refl, refl),
      (
        q.label,
        dotted q.labels,
        refl,
        (word_iff q.label).1 q.label_word,
        labels-Plus q.labels q.more_labels q.label_words,
      ),
    ),
  ),
)

abbrev HasNoAt : List ℕ → Type 0
HasNoAt s = All (λ c. (c == b'@') ≡ false) s

dot_refused : (c : ℕ) → c ≡ b'.' → is_word_char c ≡ true → ⊥
unfolding is_word_char
dot_refused c e h = cc (h, ap is_word_char e)

at_refused : (c : ℕ) → c ≡ b'@' → (c == b'@') ≡ false → ⊥
at_refused c e h = ground (arith, e, h)

-- The first at sign is behind the user.
user_undotted :
    (user rest x y : List ℕ) (a d : ℕ)
    → a ≡ b'@'
    → d ≡ b'.'
    → All (λ c. is_word_char c ≡ true) user
    → HasNoAt x
    → user ++ (a ∷ rest) ≡ x ++ (d ∷ y)
    → ⊥
user_undotted [] rest [] y a d ea ed ws frees e =
    let same : a ≡ d = cc e in omega (arith, same, ea, ed)
user_undotted [] rest (c ∷ x) y a d ea ed ws (free, frees) e = at_refused c (cc (e, ea)) free
user_undotted (u ∷ us) rest [] y a d ea ed (w, ws) frees e = dot_refused u (cc (e, ed)) w
user_undotted (u ∷ us) rest (c ∷ x) y a d ea ed (w, ws) (free, frees) e =
    user_undotted us rest x y a d ea ed ws frees (cc e)

module _ (acceptable : List ℕ → Bool) (to_std_string : List ℕ → List ℕ)
    (validates : (s : List ℕ) → (acceptable s ≡ true) ↔ Matches email s) where
  -- With a validator that accepts exactly what matches its expression, the login button logs in
  -- exactly when the password has four units or more, and the name is a word, an at sign, and two
  -- labels or more with dots between them; a word and a label are of letters, digits, '_' and '-'.
  pub login_clicked-IsAddress :
      (name pwd : List ℕ)
      → (login_clicked acceptable to_std_string name pwd
          ≡ login (to_std_string name) (to_std_string pwd) ∷ [])
        ↔ (IsAddress name × (4 ≤ length pwd))
  login_clicked-IsAddress name pwd =
      let clicked = login_clicked_iff acceptable to_std_string name pwd in
      (
        λ h. ((email_iff name).0 ((validates name).0 (clicked.0 h).0), (clicked.0 h).1),
        λ (q, n). clicked.1 ((validates name).1 ((email_iff name).1 q), n),
      )

  -- With such a validator, a name with a dot before its first at sign is never let through, as in
  -- "first.last@host.org": the login button only says that the address is wrong.
  pub login_clicked_dotted :
      (x y pwd : List ℕ)
      → HasNoAt x
      → login_clicked acceptable to_std_string (x ++ (b'.' ∷ y)) pwd ≡ tips bad_email ∷ []
  unfolding login_clicked
  login_clicked_dotted x y pwd free = elim (Bool-cases (acceptable (x ++ (b'.' ∷ y)))) [
    | inr e ↦ rw e refl
    | inl e ↦
        let q = (email_iff _).0 ((validates _).0 e) in
        absurd (
          user_undotted q.user _ x y b'@' b'.' refl refl (word_chars q.user q.user_word.chars) free
            (sym q.parts))
  ]
