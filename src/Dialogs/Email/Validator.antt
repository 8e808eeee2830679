-- ===== src/Dialogs/Email/Validator.antt =====
-- A validator of the expression of mac/hellochat/gui/logindialog.cpp that reads a text from left to
-- right.
use coffee_chat_desktop.Prelude.{
  ℕ, suc, ◌+◌, ◌≤◌, ◌≡◌, ◌↔◌, refl, sym, ap, ◌∙◌, Bool, true, false, List, [], ◌∷◌, ◌++◌, length,
  All, arith, ==_iff, ◌==◌, ◌&&◌, leb, inl, inr, Bool-cases, subst,
}
use coffee_chat_desktop.Dialogs.Email.{is_word_char, Matches, email}
use coffee_chat_desktop.Dialogs.Email.Words.{word_chars, length-IsWord, IsWord}
use coffee_chat_desktop.Dialogs.Email.Addresses.{dotted, IsAddress, email_iff}

abbrev Chars : List ℕ → Type 0
Chars s = All (λ c. is_word_char c ≡ true) s

-- The rest of a word of which `n` characters are read, up to `stop`, and what `next` says of the
-- rest.
unfoldable scan : ℕ → (List ℕ → Bool) → ℕ → List ℕ → Bool
scan stop next n [] = false
scan stop next n (c ∷ cs) = elim (is_word_char c) [
  | true ↦ scan stop next (suc n) cs
  | false ↦ (c == stop) && (leb 1 n && next cs)
]

-- The rest of a label of which `n` characters are read, and the labels behind it.
unfoldable scan_labels : ℕ → List ℕ → Bool
scan_labels n [] = leb 1 n
scan_labels n (c ∷ cs) = elim (is_word_char c) [
  | true ↦ scan_labels (suc n) cs
  | false ↦ (c == b'.') && (leb 1 n && scan_labels 0 cs)
]

unfoldable pub is_email : List ℕ → Bool
unfolding scan scan_labels
is_email s = scan b'@' (scan b'.' (scan_labels 0) 0) 0 s

abbrev Scanned : ℕ → (List ℕ → Bool) → ℕ → List ℕ → Type 0
Scanned stop next n s =
    (w : List ℕ) × (rest : List ℕ) × (s ≡ w ++ (stop ∷ rest))
    × Chars w
    × (1 ≤ n + length w)
    × (next rest ≡ true)

scan-Scanned :
    (stop : ℕ) (next : List ℕ → Bool) (n : ℕ) (s : List ℕ)
    → scan stop next n s ≡ true
    → Scanned stop next n s
unfolding scan
scan-Scanned stop next n [] h = absurd (cc h)
scan-Scanned stop next n (c ∷ cs) h = elim (Bool-cases (is_word_char c)) [
  | inl e ↦
      let (w, rest, f, chars, long, good) =
        scan-Scanned stop next (suc n) cs (ground (arith, h, e)) in
      (c ∷ w, rest, ap (λ t. c ∷ t) f, (e, chars), omega (arith, long), good)
  | inr e ↦
      let same : (c == stop) ≡ true = ground (arith, h, e) in
      (
        [],
        cs,
        ap (λ d. d ∷ cs) ((==_iff c stop).0 same),
        tt,
        ground (arith, h, e),
        ground (arith, h, e),
      )
]

Scanned-scan :
    (stop : ℕ) (next : List ℕ → Bool) (n : ℕ) (w rest : List ℕ)
    → is_word_char stop ≡ false
    → Chars w
    → 1 ≤ n + length w
    → next rest ≡ true
    → scan stop next n (w ++ (stop ∷ rest)) ≡ true
unfolding scan
Scanned-scan stop next n [] rest ends chars long good = ground (arith, ends, long, good)
Scanned-scan stop next n (c ∷ w) rest ends (char, chars) long good =
    rw (scan, char) (Scanned-scan stop next (suc n) w rest ends chars (omega (arith, long)) good)

dot_ends : is_word_char b'.' ≡ false
unfolding is_word_char
dot_ends = refl

abbrev Labelled : ℕ → List ℕ → Type 0
Labelled n s =
    (w : List ℕ) × (ls : List (List ℕ)) × (s ≡ w ++ dotted ls)
    × Chars w
    × (1 ≤ n + length w)
    × All IsWord ls

scan_labels-Labelled : (n : ℕ) (s : List ℕ) → scan_labels n s ≡ true → Labelled n s
unfolding scan_labels dotted
scan_labels-Labelled n [] h = ([], [], refl, tt, ground (arith, h), tt)
scan_labels-Labelled n (c ∷ cs) h = elim (Bool-cases (is_word_char c)) [
  | inl e ↦
      let (w, ls, f, chars, long, words) = scan_labels-Labelled (suc n) cs (ground (arith, h, e)) in
      (c ∷ w, ls, ap (λ t. c ∷ t) f, (e, chars), omega (arith, long), words)
  | inr e ↦
      let same : (c == b'.') ≡ true = ground (arith, h, e) in
      let (w, ls, f, chars, long, words) = scan_labels-Labelled 0 cs (ground (arith, h, e)) in
      (
        [],
        w ∷ ls,
        rw ((==_iff c b'.').0 same, f) refl,
        tt,
        ground (arith, h, e),
        (length-IsWord w chars (omega (arith, long)), words),
      )
]

Labelled-scan_labels :
    (n : ℕ) (w : List ℕ) (ls : List (List ℕ))
    → Chars w
    → 1 ≤ n + length w
    → All IsWord ls
    → scan_labels n (w ++ dotted ls) ≡ true
unfolding scan_labels dotted
Labelled-scan_labels n [] [] chars long words = ground (arith, long)
Labelled-scan_labels n [] (l ∷ ls) chars long (w, ws) =
    let rest = Labelled-scan_labels 0 l ls (word_chars _ w.chars) (omega (arith, w.filled)) ws in
    ground (arith, dot_ends, long, rest)
Labelled-scan_labels n (c ∷ w) ls (char, chars) long words =
    rw (scan_labels, char) (Labelled-scan_labels (suc n) w ls chars (omega (arith, long)) words)

address-is_email :
    (user label : List ℕ) (labels : List (List ℕ))
    → IsWord user
    → IsWord label
    → 1 ≤ length labels
    → All IsWord labels
    → is_email (user ++ (b'@' ∷ (label ++ dotted labels))) ≡ true
unfolding is_email is_word_char dotted
address-is_email user label [] u l n ws = absurd (omega (arith, n))
address-is_email user label (m ∷ ms) u l n (w, ws) =
    Scanned-scan b'@' (scan b'.' (scan_labels 0) 0) 0 user _ refl (word_chars _ u.chars)
      (omega (arith, u.filled))
      (Scanned-scan b'.' (scan_labels 0) 0 label _ refl (word_chars _ l.chars)
        (omega (arith, l.filled))
        (Labelled-scan_labels 0 m ms (word_chars _ w.chars) (omega (arith, w.filled)) ws))

is_email-IsAddress : (s : List ℕ) → is_email s ≡ true → IsAddress s
unfolding is_email dotted
is_email-IsAddress s h =
    let (u, r, e, us, un, hr) = scan-Scanned b'@' (scan b'.' (scan_labels 0) 0) 0 s h in
    let (l, t, f, ls, ln, ht) = scan-Scanned b'.' (scan_labels 0) 0 r hr in
    let (w, labels, g, ws, wn, words) = scan_labels-Labelled 0 t ht in
    record {
      user = u;
      label = l;
      labels = w ∷ labels;
      parts = e ∙ rw (f, g) refl;
      user_word = length-IsWord u us (omega (arith, un));
      label_word = length-IsWord l ls (omega (arith, ln));
      more_labels = omega arith;
      label_words = (length-IsWord w ws (omega (arith, wn)), words);
    }

-- `is_email` accepts exactly what the expression describes.
pub is_email_iff : (s : List ℕ) → (is_email s ≡ true) ↔ Matches email s
is_email_iff s = (
  λ h. (email_iff s).1 (is_email-IsAddress s h),
  λ m.
      let q = (email_iff s).0 m in
      subst (λ t. is_email t ≡ true) (sym q.parts)
        (address-is_email q.user q.label q.labels q.user_word q.label_word q.more_labels
          q.label_words),
)
