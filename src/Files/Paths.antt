-- ===== src/Files/Paths.antt =====
-- What `ParsePathComponents` of mac/chatkit/cim/base/file/file_util.cpp makes of a path.
use coffee_chat_desktop.Prelude.{
  ℕ, zero, suc, ◌≤◌, ◌<◌, ◌≡◌, refl, ap, ◌∙◌, List, [], ◌∷◌, ◌++◌, map, some, false, ◌==◌, length,
  All, Outcome, ok, abort, ◌>>=◌, arith, append_assoc, length-append,
}
use coffee_chat_desktop.Files.{
  separator, find_separator, skip_separators, component, push_front, parse_from,
  parse_path_components,
}

-- A name has a character, and neither a separator nor a terminator in it.
abbrev IsNameChar : ℕ → Type 0
IsNameChar c = ((c == separator) ≡ false) × ((c == 0) ≡ false)

abbrev IsTail : List ℕ → Type 0
IsTail cs = All IsNameChar cs

pub record Name : Type 0 where
  pub first : ℕ
  pub others : List ℕ
  pub proper : IsNameChar first
  pub all_proper : IsTail others

abbrev pub text : Name → List ℕ
text n = n.first ∷ n.others

find_separator-append :
    (w : List ℕ) (c : ℕ) (cs : List ℕ)
    → IsTail w
    → find_separator (c ∷ cs) ≡ ok ([], c ∷ cs)
    → find_separator (w ++ (c ∷ cs)) ≡ ok (w, c ∷ cs)
unfolding find_separator
find_separator-append [] c cs h e = e
find_separator-append (x ∷ w) c cs h e = rw (h.0.0, h.0.1, find_separator-append w c cs h.1 e) refl

-- The path of the names, each with a separator behind it.
abbrev pub path_of : List Name → List ℕ
path_of [] = []
path_of (n ∷ ns) = text n ++ (separator ∷ path_of ns)

abbrev pub component_of : Name → List ℕ
component_of n = text n ++ (separator ∷ [])

skip_separators-path_of :
    (ns : List Name) (tail : List ℕ)
    → skip_separators (path_of ns ++ (0 ∷ tail)) ≡ ok (path_of ns ++ (0 ∷ tail))
unfolding skip_separators
skip_separators-path_of [] tail = refl
skip_separators-path_of (n ∷ ns) tail = rw n.proper.0 refl

first_component :
    (n : Name) (rest : List ℕ)
    → skip_separators rest ≡ ok rest
    → (do r ← find_separator (text n ++ (separator ∷ rest)); component r)
      ≡ ok (component_of n, rest)
unfolding component find_separator
first_component n rest e =
    rw (find_separator-append (text n) separator rest (n.proper, n.all_proper) refl, e) refl

parse_step :
    (fuel c : ℕ) (cs : List ℕ) (m : Outcome (List ℕ × List ℕ))
    → (c == 0) ≡ false
    → (do r ← find_separator (c ∷ cs); component r) ≡ m
    → parse_from (suc fuel) (c ∷ cs)
      ≡ elim m [ abort ↦ some abort | ok r ↦ push_front r.0 (parse_from fuel r.1) ]
unfolding parse_from
parse_step fuel c cs m more e = ground (arith, more, e)

-- One round on a name with a separator.
parse_from-name :
    (fuel : ℕ) (n : Name) (rest : List ℕ)
    → skip_separators rest ≡ ok rest
    → parse_from (suc fuel) (text n ++ (separator ∷ rest))
      ≡ push_front (component_of n) (parse_from fuel rest)
parse_from-name fuel n rest e =
    parse_step fuel n.first (n.others ++ (separator ∷ rest)) (ok (component_of n, rest)) n.proper.1
      (first_component n rest e)

parse_from-path_of :
    (fuel : ℕ) (ns : List Name) (tail : List ℕ)
    → length ns < fuel
    → parse_from fuel (path_of ns ++ (0 ∷ tail)) ≡ some (ok (map component_of ns))
unfolding parse_from push_front
parse_from-path_of zero ns tail h = absurd (omega (arith, h))
parse_from-path_of (suc fuel) [] tail h = refl
parse_from-path_of (suc fuel) (n ∷ ns) tail h =
    ap (parse_from (suc fuel)) (append_assoc (text n) (separator ∷ path_of ns) (0 ∷ tail))
    ∙ parse_from-name fuel n (path_of ns ++ (0 ∷ tail)) (skip_separators-path_of ns tail)
    ∙ ap (push_front (component_of n)) (parse_from-path_of fuel ns tail (omega (arith, h)))

length-path_of : (ns : List Name) (tail : List ℕ) → length ns ≤ length (path_of ns ++ tail)
length-path_of [] tail = omega arith
length-path_of (n ∷ ns) tail = omega (
  arith,
  length-path_of ns tail,
  ap length (append_assoc (text n) (separator ∷ path_of ns) tail),
  length-append (text n) (separator ∷ (path_of ns ++ tail)),
)

-- A path in which each name has a separator behind it is cut into the names with their separators:
-- the loop ends, and nothing behind the terminator is read.
pub parse_path_components_lem :
    (ns : List Name) (tail : List ℕ)
    → parse_path_components (path_of ns ++ (0 ∷ tail)) ≡ some (ok (map component_of ns))
unfolding parse_path_components
parse_path_components_lem ns tail =
    parse_from-path_of (suc (length (path_of ns ++ (0 ∷ tail)))) ns tail
      (omega (arith, length-path_of ns (0 ∷ tail)))

-- The step over the terminator.
last_component : (n : Name) → (do r ← find_separator (text n ++ (0 ∷ [])); component r) ≡ abort
unfolding component find_separator skip_separators
last_component n = rw (find_separator-append (text n) 0 [] (n.proper, n.all_proper) refl) refl

skip_separators_overrun :
    (ms : List Name) (n : Name)
    → skip_separators (path_of ms ++ (text n ++ (0 ∷ []))) ≡ ok (path_of ms ++ (text n ++ (0 ∷ [])))
unfolding skip_separators
skip_separators_overrun [] n = rw n.proper.0 refl
skip_separators_overrun (m ∷ ms) n = rw m.proper.0 refl

parse_from_overrun :
    (fuel : ℕ) (ns : List Name) (n : Name)
    → length ns < fuel
    → parse_from fuel (path_of ns ++ (text n ++ (0 ∷ []))) ≡ some abort
unfolding parse_from push_front
parse_from_overrun zero ns n h = absurd (omega (arith, h))
parse_from_overrun (suc fuel) [] n h =
    parse_step fuel n.first (n.others ++ (0 ∷ [])) abort n.proper.1 (last_component n)
parse_from_overrun (suc fuel) (m ∷ ms) n h =
    ap (parse_from (suc fuel)) (append_assoc (text m) (separator ∷ path_of ms) (text n ++ (0 ∷ [])))
    ∙ parse_from-name fuel m (path_of ms ++ (text n ++ (0 ∷ []))) (skip_separators_overrun ms n)
    ∙ ap (push_front (component_of m)) (parse_from_overrun fuel ms n (omega (arith, h)))

-- A path that ends in a name without a separator, as "logs" does, makes the loop step over the
-- terminator of the string and read what is behind it.
pub parse_path_components_overrun :
    (ns : List Name) (n : Name)
    → parse_path_components (path_of ns ++ (text n ++ (0 ∷ []))) ≡ some abort
unfolding parse_path_components
parse_path_components_overrun ns n =
    parse_from_overrun (suc (length (path_of ns ++ (text n ++ (0 ∷ []))))) ns n
      (omega (arith, length-path_of ns (text n ++ (0 ∷ []))))
