-- ===== src/Log/Places.antt =====
-- The place that `suffix` of mac/chatkit/cim/base/log.h puts behind a message, and the place of the
-- log.
use coffee_chat_desktop.Prelude.{
  ℕ, ◌≡◌, refl, ap, ◌∙◌, Bool, true, false, List, [], ◌∷◌, ◌++◌, All, some, none, ok, abort, ◌==◌,
  ◌↔◌, Bool-cases, inl, inr, arith,
}
use coffee_chat_desktop.Prelude.Text.{codes}
use coffee_chat_desktop.Files.Paths.{Name, parse_path_components_overrun}
use coffee_chat_desktop.Files.Directories.{FileSystem, create_directory, create_components}
use coffee_chat_desktop.Log.{
  behind_separator, file_name, DailySink, registered, with_sinks, logs_made, create, get_instance,
}

behind_separator-none :
    (name : List ℕ) → All (λ c. (c == b'/') ≡ false) name → behind_separator name ≡ none
unfolding behind_separator
behind_separator-none [] h = refl
behind_separator-none (c ∷ name) h = rw (behind_separator-none name h.1, h.0) refl

behind_separator-append :
    (dir name : List ℕ)
    → All (λ c. (c == b'/') ≡ false) name
    → behind_separator (dir ++ (b'/' ∷ name)) ≡ some name
unfolding behind_separator
behind_separator-append [] name h = rw (behind_separator-none name h) refl
behind_separator-append (c ∷ dir) name h = rw (behind_separator-append dir name h) refl

-- Only the name of the file stays, whatever directories it stands in.
pub file_name-append :
    (dir name : List ℕ)
    → All (λ c. (c == b'/') ≡ false) name
    → file_name (dir ++ (b'/' ∷ name)) ≡ name
unfolding file_name
file_name-append dir name h = rw (behind_separator-append dir name h, file_name) refl

-- "logs"
logs : Name
logs = record {
  first = b'l';
  others = codes "ogs";
  proper = (refl, refl);
  all_proper = ((refl, refl), ((refl, refl), ((refl, refl), tt)));
}

module _ (fs : FileSystem) where
  logs_overrun :
      (w : fs.World) → create_directory fs (some (codes "logs" ++ (0 ∷ []))) w ≡ some abort
  unfolding create_directory create_components logs
  logs_overrun w = ap (λ r. create_components fs r w) (parse_path_components_overrun [] logs)

module _ (fs : FileSystem) (sink : DailySink fs) where
  open sink use {opens_file}

  get_instance_there :
      (debug_build : Bool) (w : fs.World)
      → fs.accessible w (codes "logs") ≡ true
      → get_instance fs sink none debug_build w ≡ with_sinks fs sink debug_build w
  unfolding get_instance create
  get_instance_there debug_build w there = rw (there, create) refl

  get_instance_missing :
      (debug_build : Bool) (w : fs.World)
      → fs.accessible w (codes "logs") ≡ false
      → get_instance fs sink none debug_build w ≡ some abort
  unfolding get_instance create logs_made
  get_instance_missing debug_build w missing = rw (missing, create, logs_overrun fs w) refl

  with_sinks_lem :
      (debug_build : Bool) (w : fs.World)
      → ((opens_file w).0 ≡ true
          → with_sinks fs sink debug_build w
            ≡ some (ok (some (registered debug_build), (opens_file w).1)))
        × ((opens_file w).0 ≡ false
            → with_sinks fs sink debug_build w ≡ some (ok (none, (opens_file w).1)))
  unfolding with_sinks
  with_sinks_lem debug_build w = (λ e. ground (arith, e), λ e. ground (arith, e))

  -- The first message of the program asks for the logger. If there is something called "logs" and
  -- the file of the log opens, and only then, it gets the logger as `registered` has it. If there
  -- is and the file does not open, and only then, the constructor throws, and there is no logger
  -- yet. Without "logs", and only then, it stops: `CreateDirectory` reads behind the name, which
  -- has no separator at its end, so that it is never made.
  pub get_instance_iff :
      (debug_build : Bool) (w : fs.World)
      → (((fs.accessible w (codes "logs") ≡ true) × ((opens_file w).0 ≡ true)) ↔ (
          get_instance fs sink none debug_build w
          ≡ some (ok (some (registered debug_build), (opens_file w).1))))
        × (((fs.accessible w (codes "logs") ≡ true) × ((opens_file w).0 ≡ false))
            ↔ (get_instance fs sink none debug_build w ≡ some (ok (none, (opens_file w).1))))
        × ((fs.accessible w (codes "logs") ≡ false)
            ↔ (get_instance fs sink none debug_build w ≡ some abort))
  get_instance_iff debug_build w = elim (Bool-cases (fs.accessible w (codes "logs"))) [
    | inl there ↦
        let e = get_instance_there debug_build w there in
        let (opened, thrown) = with_sinks_lem debug_build w in
        elim (Bool-cases (opens_file w).0) [
          | inl file ↦
              let made = e ∙ opened file in
              (
                (λ h. made, λ h. (there, file)),
                (λ h. cc (h.1, file), λ h. cc (h, made)),
                (λ h. cc (h, there), λ h. cc (h, made)),
              )
          | inr no_file ↦
              let none_made = e ∙ thrown no_file in
              (
                (λ h. cc (h.1, no_file), λ h. cc (h, none_made)),
                (λ h. none_made, λ h. (there, no_file)),
                (λ h. cc (h, there), λ h. cc (h, none_made)),
              )
        ]
    | inr missing ↦
        let e = get_instance_missing debug_build w missing in
        (
          (λ h. cc (h.0, missing), λ h. cc (h, e)),
          (λ h. cc (h.0, missing), λ h. cc (h, e)),
          (λ h. e, λ h. missing),
        )
  ]
