-- ===== src/Tests/Texts.antt =====
-- Texts that are converted, stack traces, and the log.
use coffee_chat_desktop.Prelude.{
  ℕ, ◌≡◌, ◌≤◌, ◌↔◌, refl, Bool, true, false, List, [], ◌∷◌, Option, none, some, ok, abort, leb,
  arith, ◌&&◌,
}
use coffee_chat_desktop.Prelude.Text.{codes}
use coffee_chat_desktop.StringUtil.{utf8_to_utf16, ws2s}
use coffee_chat_desktop.StringUtil.RoundTrip.{utf8_to_utf16_iff}
use coffee_chat_desktop.StackTrace.{stack_trace}
use coffee_chat_desktop.StackTrace.Frames.{IsPlain, Frame, line, stack_trace_lem}
use coffee_chat_desktop.Log.{registered, set_level, Spdlog, IsSpdlog, call, get_instance, DailySink}
use coffee_chat_desktop.Log.Levels.{set_level-call}
use coffee_chat_desktop.Log.Places.{get_instance_iff}
use coffee_chat_desktop.Tests.Paths.{willing}

-- U+5929 and U+1F600.
abbrev sky_and_smile : List ℕ
sky_and_smile = 0xe5 ∷ 0xa4 ∷ 0xa9 ∷ 0xf0 ∷ 0x9f ∷ 0x98 ∷ 0x80 ∷ []

read_sky : utf8_to_utf16 sky_and_smile ≡ some (0x5929 ∷ 0x1f600 ∷ [])
unfolding utf8_to_utf16
read_sky = refl

-- A surrogate, a longer form than needed, and a text that ends too early.
surrogate_refused : utf8_to_utf16 (0xed ∷ 0xa0 ∷ 0x80 ∷ []) ≡ none
unfolding utf8_to_utf16
surrogate_refused = refl

long_form_refused : utf8_to_utf16 (0xc0 ∷ 0x80 ∷ []) ≡ none
unfolding utf8_to_utf16
long_form_refused = refl

end_refused : utf8_to_utf16 (0xe5 ∷ 0xa4 ∷ []) ≡ none
unfolding utf8_to_utf16
end_refused = refl

utf8_to_utf16_iff_example :
    (utf8_to_utf16 sky_and_smile ≡ some (0x5929 ∷ 0x1f600 ∷ []))
    ↔ (ws2s (0x5929 ∷ 0x1f600 ∷ []) ≡ some sky_and_smile)
utf8_to_utf16_iff_example = utf8_to_utf16_iff sky_and_smile (0x5929 ∷ 0x1f600 ∷ [])

main_name-IsPlain : IsPlain (codes "_Z1fv")
main_name-IsPlain = ground arith

main_offset-IsPlain : IsPlain (codes "0x1c) [0x40]")
main_offset-IsPlain = ground arith

abbrev main_frame : Frame
main_frame = record {
  module_name = codes "app";
  name = codes "_Z1fv";
  offset = codes "0x1c) [0x40]";
  plain_name = main_name-IsPlain;
  plain_offset = main_offset-IsPlain;
}

abbrev demangler : List ℕ → Option (List ℕ)
demangler name = some (codes "f()")

stack_trace_lem_example :
    stack_trace demangler true (some (codes "own" ∷ line main_frame ∷ []))
    ≡ codes "app(f()+0x1c) [0x40]\n"
stack_trace_lem_example = stack_trace_lem demangler (codes "own") (main_frame ∷ [])

abbrev spdlog : Spdlog
spdlog = record { reaches = λ logger sink message. leb logger message && leb sink message }

spdlog-IsSpdlog : IsSpdlog spdlog
spdlog-IsSpdlog = record {
  reaches_iff = λ logger sink message. (λ h. ground (arith, h), λ h. ground (arith, h));
}

set_level-call_example :
    (((call spdlog 0 (set_level 1 (registered true))).0 ≡ true) ↔ ((1 ≤ 1) × (1 ≤ 1) × (2 ≤ 1)))
    × (((call spdlog 0 (set_level 1 (registered true))).1 ≡ true) ↔ ((1 ≤ 1) × (1 ≤ 1) × (2 ≤ 1)))
set_level-call_example = set_level-call spdlog spdlog-IsSpdlog true 1 1 (omega arith) (omega arith)

-- A log file that does not open, as where "logs" is itself a file.
abbrev no_log : DailySink willing
no_log = record { opens_file = λ w. (false, w) }

get_instance_iff_example :
    (((true ≡ true) × (false ≡ true))
      ↔ (get_instance willing no_log none false true ≡ some (ok (some (registered false), true))))
    × (((true ≡ true) × (◌≡◌ {A = Bool} false false))
        ↔ (get_instance willing no_log none false true ≡ some (ok (none, true))))
    × ((true ≡ false) ↔ (get_instance willing no_log none false true ≡ some abort))
get_instance_iff_example = get_instance_iff willing no_log false true
