-- ===== src/MsgTime/Shown.antt =====
-- What the text of `ChatManager::FormatMsgTime` shows of the time of a message.
use coffee_chat_desktop.Prelude.{
  ℕ, ◌+◌, ◌/◌, ◌<◌, ◌≡◌, ◌↔◌, refl, ap, sym, ◌∙◌, ◌⊎◌, Bool, true, false, ◌||◌, List, [], ◌∷◌, ◌++◌,
  if◌then◌else◌, ◌==◌, leb, All, arith, Bool-cases, inl, inr, ==_iff,
}
use coffee_chat_desktop.Prelude.Decimal.{decimal, is_digit, decimal-IsDigit}
use coffee_chat_desktop.MsgTime.{
  Tm, time_span_half_hour, minutes_ago, distance, two_digits, hour_minute, month_day, year_month,
  week_text, this_year, format_msg_time,
}

-- Whether a character stands in a text.
pub has : ℕ → List ℕ → Bool
has c [] = false
has c (x ∷ xs) = let rest = has c xs in x == c || rest

has-append : (c : ℕ) (xs ys : List ℕ) → has c (xs ++ ys) ≡ (has c xs || has c ys)
unfolding has
has-append c [] ys = refl
has-append c (x ∷ xs) ys = ground (arith, has-append c xs ys)

has-if :
    (c : ℕ) (b : Bool) (xs ys : List ℕ)
    → has c (if b then xs else ys) ≡ (if b then has c xs else has c ys)
has-if c true xs ys = refl
has-if c false xs ys = refl

has-digits :
    (c : ℕ) (xs : List ℕ) → is_digit c ≡ false → All (λ d. is_digit d ≡ true) xs → has c xs ≡ false
unfolding has
has-digits c [] h digits = refl
has-digits c (x ∷ xs) h digits = ground (arith, h, digits.0, has-digits c xs h digits.1)

has-two_digits : (c n : ℕ) → is_digit c ≡ false → has c (two_digits n) ≡ false
unfolding two_digits has
has-two_digits c n h = ground (arith, h)

-- A separator is a character that is no digit and in no day of the week.
has-week_text : (c day : ℕ) → c < 128 → has c (week_text day) ≡ false
unfolding week_text has
has-week_text c day h = ground (arith, h)

-- Two groups of two digits, with a character between them.
has-between :
    (c d m : ℕ) (front : List ℕ)
    → is_digit c ≡ false
    → has c front ≡ false
    → has c (front ++ (d ∷ two_digits m)) ≡ (d == c)
unfolding has
has-between c d m front h f =
    has-append c front (d ∷ two_digits m) ∙ ground (arith, f, has-two_digits c m h)

module _ (c : ℕ) (digit : is_digit c ≡ false) (ascii : c < 128) where
  has-this_year :
      (cur msg : Tm)
      → has c (this_year cur msg) ≡ (
          if cur.tm_mday == msg.tm_mday
          then b':' == c
          else (if cur.tm_mday / 7 == msg.tm_mday / 7 then false else b'/' == c))
  unfolding this_year hour_minute month_day has
  has-this_year cur msg =
      let hm =
        has-between c b':' msg.tm_min (two_digits msg.tm_hour) digit
          (has-two_digits c msg.tm_hour digit) in
      let md =
        has-between c b'/' msg.tm_mday (two_digits (msg.tm_mon + 1)) digit
          (has-two_digits c (msg.tm_mon + 1) digit) in
      let week = has-week_text c msg.tm_wday ascii in ground (arith, hm, md, week, ascii)

  has-year_month : (msg : Tm) → has c (year_month msg) ≡ (b'/' == c)
  unfolding year_month
  has-year_month msg =
      has-between c b'/' (msg.tm_mon + 1) (decimal (1900 + msg.tm_year)) digit
        (has-digits c (decimal (1900 + msg.tm_year)) digit (decimal-IsDigit (1900 + msg.tm_year)))

  has-minutes : (m : ℕ) → has c (decimal m ++ minutes_ago) ≡ false
  unfolding has
  has-minutes m =
      has-append c (decimal m) minutes_ago
      ∙ ground (arith, has-digits c (decimal m) digit (decimal-IsDigit m), ascii)

  has-format_msg_time :
      (localtime : ℕ → Tm) (cur_time msg_time : ℕ)
      → let cur = localtime cur_time in
        let msg = localtime msg_time in
        let span = distance msg_time cur_time in
        has c (format_msg_time localtime cur_time msg_time) ≡ (
          if leb span time_span_half_hour
          then false
          else (if cur.tm_year == msg.tm_year
              then has c (this_year cur msg)
              else (if leb (distance msg.tm_year cur.tm_year) 1 then b'/' == c else false)))
  unfolding format_msg_time has
  has-format_msg_time localtime cur_time msg_time =
      let minutes = has-minutes (distance msg_time cur_time / 60) in
      let months = has-year_month (localtime msg_time) in ground (arith, minutes, months, ascii)

-- The outer branches, by what they show of a message of this year and of one of a year next to it.
abbrev by_year : ℕ → ℕ → ℕ → Bool → Bool → Bool
by_year span year year' this next =
    if leb span time_span_half_hour
    then false
    else (if year == year' then this else (if leb (distance year' year) 1 then next else false))

by_year-cases :
    (span year year' : ℕ) (this next : Bool)
    → by_year span year year' this next ≡ true
    → (time_span_half_hour < span)
      × (((year ≡ year') × (this ≡ true)) ⊎ ((distance year' year ≡ 1) × (next ≡ true)))
by_year-cases span year year' this next h = elim (Bool-cases (year == year')) [
  | inl same ↦ (ground (arith, h), inl ((==_iff year year').0 same, ground (arith, h, same)))
  | inr other ↦ (ground (arith, h), inr (ground (arith, h, other), ground (arith, h, other)))
]

by_year-this :
    (span year year' : ℕ) (this next : Bool)
    → time_span_half_hour < span
    → year ≡ year'
    → this ≡ true
    → by_year span year year' this next ≡ true
by_year-this span year year' this next long same shown =
    ground (arith, long, (==_iff year year').1 same, shown)

by_year-next :
    (span year year' : ℕ) (this : Bool)
    → time_span_half_hour < span
    → distance year' year ≡ 1
    → by_year span year year' this true ≡ true
by_year-next span year year' this long beside = ground (arith, long, beside)

has_colon-this_year :
    (cur msg : Tm) → (has b':' (this_year cur msg) ≡ true) ↔ (cur.tm_mday ≡ msg.tm_mday)
has_colon-this_year cur msg =
    let e = has-this_year b':' refl (omega arith) cur msg in
    (
      λ h. (==_iff cur.tm_mday msg.tm_mday).0 (ground (arith, e, h)),
      λ same. ground (arith, e, (==_iff cur.tm_mday msg.tm_mday).1 same),
    )

slash_shown :
    (cur msg : Tm)
    → has b'/' (this_year cur msg) ≡ (
        if cur.tm_mday == msg.tm_mday
        then b':' == b'/'
        else (if cur.tm_mday / 7 == msg.tm_mday / 7 then false else b'/' == b'/'))
    → ¬ (cur.tm_mday / 7 ≡ msg.tm_mday / 7)
    → has b'/' (this_year cur msg) ≡ true
slash_shown cur msg e differ = elim (Bool-cases (cur.tm_mday / 7 == msg.tm_mday / 7)) [
  | inl week ↦ absurd (differ ((==_iff (cur.tm_mday / 7) (msg.tm_mday / 7)).0 week))
  | inr other ↦ elim (Bool-cases (cur.tm_mday == msg.tm_mday)) [
    | inl day ↦ absurd (differ (ap (λ d. d / 7) ((==_iff cur.tm_mday msg.tm_mday).0 day)))
    | inr later ↦ ground (arith, e, other, later)
  ]
]

has_slash-this_year :
    (cur msg : Tm) → (has b'/' (this_year cur msg) ≡ true) ↔ ¬ (cur.tm_mday / 7 ≡ msg.tm_mday / 7)
has_slash-this_year cur msg =
    let e = has-this_year b'/' refl (omega arith) cur msg in
    (
      λ h same. ground (arith, e, h, (==_iff (cur.tm_mday / 7) (msg.tm_mday / 7)).1 same),
      λ differ. slash_shown cur msg e differ,
    )

-- The text of a message, earlier or later, has a colon exactly when the message is more than an
-- hour away, of this year and of the same day of the month as today, whatever its month; and a
-- slash exactly when it is more than an hour away and either of this year with a day of the month
-- that divides by seven to another quotient than that of today, or of a year next to this one.
pub format_msg_time_lem :
    (localtime : ℕ → Tm) (cur_time msg_time : ℕ)
    → let cur = localtime cur_time in
      let msg = localtime msg_time in
      let text = format_msg_time localtime cur_time msg_time in
      let span = distance msg_time cur_time in
      ((has b':' text ≡ true) ↔ (
        (time_span_half_hour < span) × (cur.tm_year ≡ msg.tm_year) × (cur.tm_mday ≡ msg.tm_mday)))
      × ((has b'/' text ≡ true) ↔ (
          (time_span_half_hour < span)
          × (((cur.tm_year ≡ msg.tm_year) × ¬ (cur.tm_mday / 7 ≡ msg.tm_mday / 7))
              ⊎ (distance msg.tm_year cur.tm_year ≡ 1))))
format_msg_time_lem localtime cur_time msg_time =
    let cur = localtime cur_time in
    let msg = localtime msg_time in
    let span = distance msg_time cur_time in
    let colon = has-format_msg_time b':' refl (omega arith) localtime cur_time msg_time in
    let slash = has-format_msg_time b'/' refl (omega arith) localtime cur_time msg_time in
    let day = has_colon-this_year cur msg in
    let week = has_slash-this_year cur msg in
    let days = has b':' (this_year cur msg) in
    let weeks = has b'/' (this_year cur msg) in
    (
      (
        λ h.
            (let (long, e) =
                by_year-cases span cur.tm_year msg.tm_year days false (sym colon ∙ h) in
              elim e [
                | inl (same, shown) ↦ (long, same, day.0 shown)
                | inr (beside, shown) ↦ absurd (cc shown)
              ]),
        λ (long, same, today).
            colon ∙ by_year-this span cur.tm_year msg.tm_year days false long same (day.1 today),
      ),
      (
        λ h.
            (let (long, e) =
                by_year-cases span cur.tm_year msg.tm_year weeks true (sym slash ∙ h) in
              elim e [
                | inl (same, shown) ↦ (long, inl (same, week.0 shown))
                | inr (beside, shown) ↦ (long, inr beside)
              ]),
        λ (long, e). elim e [
          | inl (same, other) ↦
              slash ∙ by_year-this span cur.tm_year msg.tm_year weeks true long same (week.1 other)
          | inr beside ↦ slash ∙ by_year-next span cur.tm_year msg.tm_year weeks long beside
        ],
      ),
    )
