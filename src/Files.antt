-- ===== src/Files.antt =====
-- mac/chatkit/cim/base/file/file_util.cpp: the components of a path.
pub mod Paths
pub mod Directories
use coffee_chat_desktop.Prelude.{
  ℕ, zero, suc, List, [], ◌∷◌, ◌++◌, Option, none, some, if◌then◌else◌, ◌==◌, length, Outcome, ok,
  abort, ◌>>=◌, true, false,
}

-- `kFilePathSeparators`
abbrev pub separator : ℕ
separator = b'/'

-- `for (;;)` of `ParsePathComponentsT`: the characters up to a separator or the terminator, and the
-- memory from there on. A pointer is the memory that it reads; behind its end nothing may be read.
unfoldable pub find_separator : List ℕ → Outcome (List ℕ × List ℕ)
find_separator [] = abort
find_separator (c ∷ cs) =
    let more = (do (w, r) ← find_separator cs; ok (c ∷ w, r)) in
    if c == separator then ok ([], c ∷ cs) else (if c == 0 then ok ([], c ∷ cs) else more)

-- `for (++next;;)`, after the first step.
unfoldable pub skip_separators : List ℕ → Outcome (List ℕ)
skip_separators [] = abort
skip_separators (c ∷ cs) =
    let more = skip_separators cs in if c == separator then more else ok (c ∷ cs)

-- `components.push_back(...)`, with the separator if the loop stopped at one, and the step behind
-- it.
unfoldable pub component : List ℕ × List ℕ → Outcome (List ℕ × List ℕ)
component (w, []) = abort
component (w, c ∷ cs) = do
  next ← skip_separators cs
  ok (if c == 0 then w else w ++ (separator ∷ []), next)

unfoldable pub push_front :
    List ℕ → Option (Outcome (List (List ℕ))) → Option (Outcome (List (List ℕ)))
push_front w none = none
push_front w (some abort) = some abort
push_front w (some (ok ws)) = some (ok (w ∷ ws))

-- `while (*next)` on fuel; `none` is the end of the fuel.
unfoldable pub parse_from : ℕ → List ℕ → Option (Outcome (List (List ℕ)))
parse_from zero memory = none
parse_from (suc fuel) [] = some abort
parse_from (suc fuel) (c ∷ cs) = elim (c == 0) [
  | true ↦ some (ok [])
  | false ↦ elim (do r ← find_separator (c ∷ cs); component r) [
    | abort ↦ some abort
    | ok r ↦ push_front r.0 (parse_from fuel r.1)
  ]
]

-- `ParsePathComponents(path, components)`; each round moves on by a character at least.
unfoldable pub parse_path_components : List ℕ → Option (Outcome (List (List ℕ)))
unfolding parse_from
parse_path_components memory = parse_from (suc (length memory)) memory
