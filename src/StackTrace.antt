-- ===== src/StackTrace.antt =====
-- mac/chatkit/cim/base/Exception.cpp: the text of a stack trace, and the exception. The code of the
-- trace stands under `#ifdef OS_LINUX`, which no build file of the repository defines: it is read
-- as a build that defines it would compile it. The symbols of the frames come from the system, and
-- so does `abi::__cxa_demangle`.
pub mod Frames
use coffee_chat_desktop.Prelude.{
  ℕ, zero, suc, ◌+◌, ◌-◌, Bool, true, false, List, [], ◌∷◌, ◌++◌, Option, none, some, ◌==◌, ltb,
  if◌then◌else◌, take, drop,
}

abbrev pub max_frames : ℕ
max_frames = 200

abbrev pub new_line : ℕ
new_line = 10

-- `left_par` and `plus`, as places in the line: those of the last '(' and the last '+'.
unfoldable pub mark : ℕ → ℕ → Option ℕ × Option ℕ → Option ℕ × Option ℕ
mark i c found =
    if c == b'(' then (some i, found.1) else (if c == b'+' then (found.0, some i) else found)

unfoldable pub marks : ℕ → Option ℕ × Option ℕ → List ℕ → Option ℕ × Option ℕ
unfolding mark
marks i found [] = found
marks i found (c ∷ cs) = marks (i + 1) (mark i c found) cs

-- The C string from behind `left_par` on, with a terminator in the place of `plus`.
unfoldable pub mangled : ℕ → ℕ → List ℕ → List ℕ
mangled left_par plus line =
    if ltb left_par plus
    then take (plus - (left_par + 1)) (drop (left_par + 1) line)
    else drop (left_par + 1) line

unfoldable pub fallback : List ℕ → List ℕ
fallback line = line ++ (new_line ∷ [])

-- What stands for a frame with both marks, by what demangling its name gives; `none` is a status
-- that is not 0.
unfoldable pub demangled_frame : ℕ → ℕ → List ℕ → Option (List ℕ) → List ℕ
unfolding fallback
demangled_frame left_par plus line none = fallback line
demangled_frame left_par plus line (some name) =
    take (left_par + 1) line ++ (name ++ (drop plus line ++ (new_line ∷ [])))

module _ (cxa_demangle : List ℕ → Option (List ℕ)) where
  unfoldable pub marked_frame : Option ℕ × Option ℕ → List ℕ → List ℕ
  unfolding fallback demangled_frame mangled
  marked_frame (some left_par, some plus) line =
      demangled_frame left_par plus line (cxa_demangle (mangled left_par plus line))
  marked_frame (some left_par, none) line = fallback line
  marked_frame (none, plus) line = fallback line

  -- The body of the loop over the frames.
  unfoldable pub frame_text : Bool → List ℕ → List ℕ
  unfolding marked_frame marks fallback
  frame_text demangle line =
      if demangle then marked_frame (marks 0 (none, none) line) line else fallback line

  unfoldable pub frames_text : Bool → List (List ℕ) → List ℕ
  unfolding frame_text
  frames_text demangle [] = []
  frames_text demangle (line ∷ lines) = frame_text demangle line ++ frames_text demangle lines

  -- `stackTrace(demangle)`, on the frames of the system, of which `backtrace` gives the first;
  -- `none` is the null pointer of `backtrace_symbols`. The first frame is `stackTrace` itself.
  unfoldable pub stack_trace : Bool → Option (List (List ℕ)) → List ℕ
  unfolding frames_text
  stack_trace demangle none = []
  stack_trace demangle (some symbols) = frames_text demangle (drop 1 (take max_frames symbols))

-- `Exception`
pub record Exception : Type 0 where
  pub message : List ℕ
  pub stack : List ℕ

abbrev pub exception : List ℕ → Exception
exception msg = record { message = msg; stack = [] }
