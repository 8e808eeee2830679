-- ===== src/MsgTime.antt =====
-- `ChatManager::FormatMsgTime` of mac/chatkit/cim/core/chat_manager.cpp: how long ago a message
-- was. A wide string is the list of its code points.
pub mod Shown
use coffee_chat_desktop.Prelude.{
  ℕ, ◌+◌, ◌-◌, ◌*◌, ◌/◌, ◌%◌, ◌≤◌, ◌<◌, ◌≡◌, List, [], ◌∷◌, ◌++◌, if◌then◌else◌, ◌==◌, leb, ==_iff,
  arith,
}
use coffee_chat_desktop.Prelude.Text.{codes}
use coffee_chat_desktop.Prelude.Decimal.{decimal}

-- `struct tm`, with the year as it is counted there, from 1900 on.
pub record Tm : Type 0 where
  pub tm_min : ℕ
  pub tm_hour : ℕ
  pub tm_mday : ℕ
  pub tm_mon : ℕ
  pub tm_year : ℕ
  pub tm_wday : ℕ

-- `kTimeSpanHalfHour`, which is a whole hour, and `kTimeSpanMin`
abbrev pub time_span_half_hour : ℕ
time_span_half_hour = 60 * 60

abbrev pub time_span_min : ℕ
time_span_min = 10 * 60

-- `::abs` of a difference.
abbrev pub distance : ℕ → ℕ → ℕ
distance a b = (a - b) + (b - a)

-- "%H", "%M", "%m" and "%d" of `strftime`: two digits.
unfoldable pub two_digits : ℕ → List ℕ
two_digits n = (b'0' + n / 10 % 10) ∷ (b'0' + n % 10) ∷ []

unfoldable pub hour_minute : Tm → List ℕ
hour_minute t = two_digits t.tm_hour ++ (codes ":" ++ two_digits t.tm_min)

unfoldable pub month_day : Tm → List ℕ
month_day t = two_digits (t.tm_mon + 1) ++ (codes "/" ++ two_digits t.tm_mday)

unfoldable pub year_month : Tm → List ℕ
year_month t = decimal (1900 + t.tm_year) ++ (codes "/" ++ two_digits (t.tm_mon + 1))

-- The `switch` on the day of the week.
unfoldable pub week_text : ℕ → List ℕ
week_text day =
    if day == 0
    then codes "天"
    else (if day == 2
        then codes "二"
        else (if day == 3
            then codes "三"
            else (if day == 4
                then codes "四"
                else (if day == 5
                    then codes "五"
                    else (if day == 6 then codes "六" else codes "一")))))

abbrev pub just_now : List ℕ
just_now = codes "刚刚"

abbrev pub minutes_ago : List ℕ
minutes_ago = codes "分钟前"

abbrev pub long_ago : List ℕ
long_ago = codes "很久以前"

-- The branch of a message of this year.
unfoldable pub this_year : Tm → Tm → List ℕ
this_year cur msg =
    if cur.tm_mday == msg.tm_mday
    then hour_minute msg
    else (if cur.tm_mday / 7 == msg.tm_mday / 7
        then codes "星期" ++ week_text msg.tm_wday
        else month_day msg)

-- With `time(nullptr)` and what `localtime` makes of a time; both times are not negative.
module _ (localtime : ℕ → Tm) where
  unfoldable pub format_msg_time : ℕ → ℕ → List ℕ
  unfolding this_year
  format_msg_time cur_time msg_time =
      let cur = localtime cur_time in
      let msg = localtime msg_time in
      let span = distance msg_time cur_time in
      if leb span time_span_min
      then just_now
      else (if leb span time_span_half_hour
          then decimal (span / 60) ++ minutes_ago
          else (if cur.tm_year == msg.tm_year
              then this_year cur msg
              else (if leb (distance msg.tm_year cur.tm_year) 1 then year_month msg else long_ago)))

  -- A message that is more than ten minutes and up to an hour away, earlier or later, is shown by
  -- its whole minutes, which are from 10 to 60.
  pub format_msg_time_minutes :
      (cur_time msg_time : ℕ)
      → time_span_min < distance msg_time cur_time
      → distance msg_time cur_time ≤ time_span_half_hour
      → (m : ℕ) × (format_msg_time cur_time msg_time ≡ decimal m ++ minutes_ago)
        × (10 ≤ m)
        × (m ≤ 60)
        × (m * 60 ≤ distance msg_time cur_time)
        × (distance msg_time cur_time < (m + 1) * 60)
  unfolding format_msg_time
  format_msg_time_minutes cur_time msg_time long short = (
    distance msg_time cur_time / 60,
    ground (arith, long, short),
    omega (arith, long),
    omega (arith, short),
    omega arith,
    omega arith,
  )
