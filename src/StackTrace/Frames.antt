-- ===== src/StackTrace/Frames.antt =====
-- What becomes of a frame of the form that glibc has, a module, a name and an offset.
use coffee_chat_desktop.Prelude.{
  ℕ, ◌+◌, ◌≡◌, refl, true, false, sym, ap, ◌∙◌, zero, suc, map, Option-cases, inl, inr,
  append_assoc, ◌-◌, ltb, append-nil, take, drop, take-append, drop-append, List, [], ◌∷◌, ◌++◌,
  Option, none, some, ◌==◌, All, length, arith,
}
use coffee_chat_desktop.StackTrace.{
  mark, marks, mangled, fallback, demangled_frame, marked_frame, frame_text, frames_text,
  stack_trace, new_line,
}

-- Without a mark.
abbrev pub IsPlain : List ℕ → Type 0
IsPlain cs = All (λ c. ((c == b'(') ≡ false) × ((c == b'+') ≡ false)) cs

marks-append :
    (i : ℕ) (found : Option ℕ × Option ℕ) (cs rest : List ℕ)
    → marks i found (cs ++ rest) ≡ marks (i + length cs) (marks i found cs) rest
unfolding marks
marks-append i found [] rest = ap (λ k. marks k found rest) (omega arith)
marks-append i found (c ∷ cs) rest =
    marks-append (i + 1) (mark i c found) cs rest
    ∙ ap (λ k. marks k (marks (i + 1) (mark i c found) cs) rest) (omega arith)

marks-plain :
    (i : ℕ) (found : Option ℕ × Option ℕ) (cs : List ℕ) → IsPlain cs → marks i found cs ≡ found
unfolding marks
marks-plain i found [] h = refl
marks-plain i found (c ∷ cs) h = rw (h.0.0, h.0.1) (marks-plain (i + 1) found cs h.1)

-- The marks of a frame are the last of each.
marks_lem :
    (module_name name offset : List ℕ)
    → IsPlain name
    → IsPlain offset
    → marks 0 (none, none) (module_name ++ (b'(' ∷ (name ++ (b'+' ∷ offset))))
      ≡ (some (length module_name), some (length module_name + 1 + length name))
unfolding marks
marks_lem module_name name offset hn ho =
    let n = length module_name in
    let found = marks 0 (none, none) module_name in
    marks-append 0 (none, none) module_name (b'(' ∷ (name ++ (b'+' ∷ offset)))
    ∙ ap (λ k. marks (k + 1) (some k, found.1) (name ++ (b'+' ∷ offset))) {x = 0 + n} {y = n}
        (omega arith)
    ∙ marks-append (n + 1) (some n, found.1) name (b'+' ∷ offset)
    ∙ ap (λ f. marks (n + 1 + length name) f (b'+' ∷ offset))
        (marks-plain (n + 1) (some n, found.1) name hn)
    ∙ marks-plain (n + 1 + length name + 1) (some n, some (n + 1 + length name)) offset ho

-- The parts of the line that they cut out.
cut_front :
    (module_name rest : List ℕ)
    → take (length module_name + 1) (module_name ++ (b'(' ∷ rest)) ≡ module_name ++ (b'(' ∷ [])
cut_front module_name rest = take-append 1 module_name (b'(' ∷ rest)

cut_back :
    (module_name name offset : List ℕ)
    → drop
        (length module_name + 1 + length name)
        (module_name ++ (b'(' ∷ (name ++ (b'+' ∷ offset))))
      ≡ b'+' ∷ offset
cut_back module_name name offset =
    let rest = b'(' ∷ (name ++ (b'+' ∷ offset)) in
    ap (λ k. drop k (module_name ++ rest)) {x = length module_name + 1 + length name}
      {y = length module_name + suc (length name + 0)} (omega arith)
    ∙ drop-append (suc (length name + 0)) module_name rest
    ∙ drop-append 0 name (b'+' ∷ offset)

cut_name :
    (module_name name offset : List ℕ)
    → mangled
        (length module_name)
        (length module_name + 1 + length name)
        (module_name ++ (b'(' ∷ (name ++ (b'+' ∷ offset))))
      ≡ name
unfolding mangled
cut_name module_name name offset =
    let rest = b'(' ∷ (name ++ (b'+' ∷ offset)) in
    let n = length module_name in
    let before : ltb n (n + 1 + length name) ≡ true = ground arith in
    let span : n + 1 + length name - (n + 1) ≡ length name + 0 = omega arith in
    rw (before, span, drop-append 1 module_name rest)
      (take-append 0 name (b'+' ∷ offset) ∙ append-nil name)

-- A frame: a module of whatever name, a name and an offset without a mark.
pub record Frame : Type 0 where
  pub module_name : List ℕ
  pub name : List ℕ
  pub offset : List ℕ
  pub plain_name : IsPlain name
  pub plain_offset : IsPlain offset

-- Its line, with some name.
abbrev pub line_with : List ℕ → Frame → List ℕ
line_with name f = f.module_name ++ (b'(' ∷ (name ++ (b'+' ∷ f.offset)))

abbrev pub line : Frame → List ℕ
line f = line_with f.name f

abbrev pub name_or : List ℕ → Option (List ℕ) → List ℕ
name_or name none = name
name_or name (some new) = new

module _ (cxa_demangle : List ℕ → Option (List ℕ)) where
  -- The name that is shown.
  abbrev pub shown_name : List ℕ → List ℕ
  shown_name name = name_or name (cxa_demangle name)

  frame_text_lem :
      (f : Frame)
      → frame_text cxa_demangle true (line f) ≡ line_with (shown_name f.name) f ++ (new_line ∷ [])
  unfolding frame_text marked_frame demangled_frame fallback
  frame_text_lem f =
      let rest = f.name ++ (b'+' ∷ f.offset) in
      let e = marks_lem f.module_name f.name f.offset f.plain_name f.plain_offset in
      let n = cut_name f.module_name f.name f.offset in
      let front = cut_front f.module_name rest in
      let back = cut_back f.module_name f.name f.offset in
      elim (Option-cases (cxa_demangle f.name)) [
        | inl d ↦ rw (e, n, d, fallback) refl
        | inr (new, d) ↦
            rw (e, n, d, front, back)
              (append_assoc f.module_name (b'(' ∷ [])
                  (new ++ ((b'+' ∷ f.offset) ++ (new_line ∷ [])))
                ∙ sym (
                    append_assoc f.module_name (b'(' ∷ (new ++ (b'+' ∷ f.offset))) (new_line ∷ [])
                    ∙ ap (λ l. f.module_name ++ (b'(' ∷ l))
                        (append_assoc new (b'+' ∷ f.offset) (new_line ∷ []))))
      ]

  -- The lines of the frames, each with its name demangled where that can be done.
  abbrev pub shown : List Frame → List ℕ
  shown [] = []
  shown (f ∷ fs) = (line_with (shown_name f.name) f ++ (new_line ∷ [])) ++ shown fs

  frames_text_lem :
      (n : ℕ) (fs : List Frame)
      → frames_text cxa_demangle true (take n (map line fs)) ≡ shown (take n fs)
  unfolding frames_text
  frames_text_lem zero fs = refl
  frames_text_lem (suc n) [] = refl
  frames_text_lem (suc n) (f ∷ fs) = rw (frame_text_lem f, frames_text_lem n fs) refl

  -- A trace leaves out its own frame, and shows of the others the first 199, each on a line of its
  -- own, in order, with its name demangled if that can be done and else as it is; a module may have
  -- any name, and the names and offsets have no parenthesis and no plus in them.
  pub stack_trace_lem :
      (own : List ℕ) (fs : List Frame)
      → stack_trace cxa_demangle true (some (own ∷ map line fs)) ≡ shown (take 199 fs)
  unfolding stack_trace
  stack_trace_lem own fs = frames_text_lem 199 fs
