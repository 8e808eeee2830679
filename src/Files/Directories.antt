-- ===== src/Files/Directories.antt =====
-- `CreateDirectory` of mac/chatkit/cim/base/file/file_util.cpp, over the calls of the system.
use coffee_chat_desktop.Prelude.{
  ℕ, ◌≡◌, refl, sym, ap, ◌∙◌, List, [], ◌∷◌, ◌++◌, map, Option, none, some, true, false, Bool, inl,
  inr, ◌⊎◌, if◌then◌else◌, All, arith, Outcome, ok, abort, Bool-cases, subst,
}
use mathlib.Core.Bool.{true≢false}
use coffee_chat_desktop.Files.{parse_path_components}
use coffee_chat_desktop.Files.Paths.{Name, path_of, component_of, parse_path_components_lem}

-- What the system says of a path and does for `mkdir`: `opendir` finds a directory, `access` finds
-- anything; `mkdir` answers whether it returned 0.
pub record FileSystem : Type 1 where
  pub World : Type 0
  pub is_dir : World → List ℕ → Bool
  pub accessible : World → List ℕ → Bool
  pub mkdir : World → List ℕ → Bool × World

-- `mkdir` makes what it says, and takes no directory away.
pub record IsFileSystem (fs : FileSystem) : Type 0 where
  pub made :
      (w : fs.World) (p : List ℕ) → (fs.mkdir w p).0 ≡ true → fs.is_dir (fs.mkdir w p).1 p ≡ true
  pub kept :
      (w : fs.World) (p q : List ℕ) → fs.is_dir w q ≡ true → fs.is_dir (fs.mkdir w p).1 q ≡ true

-- `FilePathIsExist(filepath_in, is_directory)`
abbrev pub file_path_is_exist : (fs : FileSystem) → fs.World → List ℕ → Bool → Bool
file_path_is_exist fs w path false = fs.accessible w path
file_path_is_exist fs w path true = fs.is_dir w path

-- `*curr = *prev + *curr`: all parents, the longest last.
unfoldable pub prefixes : List ℕ → List (List ℕ) → List (List ℕ)
prefixes prev [] = []
prefixes prev (curr ∷ rest) = (prev ++ curr) ∷ prefixes (prev ++ curr) rest

module _ (fs : FileSystem) where
  -- The loop that creates what is missing. Behind a failed `mkdir` the directory is looked for
  -- again.
  unfoldable pub create_missing : List (List ℕ) → fs.World → Bool × fs.World
  create_missing [] w = (true, w)
  create_missing (p ∷ ps) w =
      let (done, w') = fs.mkdir w p in
      let there = create_missing ps w in
      let after = create_missing ps w' in
      if file_path_is_exist fs w p true
      then there
      else (if done
          then after
          else (if file_path_is_exist fs w' p true then after else (false, w')))

  unfoldable pub create_components :
      Option (Outcome (List (List ℕ))) → fs.World → Option (Outcome (Bool × fs.World))
  create_components none w = none
  create_components (some abort) w = some abort
  create_components (some (ok [])) w = some (ok (false, w))
  create_components (some (ok (p ∷ ps))) w = some (ok (create_missing (prefixes [] (p ∷ ps)) w))

  -- `CreateDirectory(full_path)`, with `none` for a null pointer.
  unfoldable pub create_directory : Option (List ℕ) → fs.World → Option (Outcome (Bool × fs.World))
  create_directory none w = some (ok (false, w))
  create_directory (some memory) w = create_components (parse_path_components memory) w

  module _ (laws : IsFileSystem fs) where
    create_missing_keeps :
        (ps : List (List ℕ)) (w : fs.World) (q : List ℕ)
        → fs.is_dir w q ≡ true
        → fs.is_dir (create_missing ps w).1 q ≡ true
    unfolding create_missing
    create_missing_keeps [] w q h = h
    create_missing_keeps (p ∷ ps) w q h =
        let w' = (fs.mkdir w p).1 in
        let h' = laws.kept w p q h in
        ground (arith, h', create_missing_keeps ps w q h, create_missing_keeps ps w' q h')

    -- The loop goes on in a world where the first path is a directory, or fails.
    create_missing_cases :
        (p : List ℕ) (ps : List (List ℕ)) (w : fs.World)
        → ((v : fs.World) × (fs.is_dir v p ≡ true)
            × (create_missing (p ∷ ps) w ≡ create_missing ps v))
          ⊎ ((create_missing (p ∷ ps) w).0 ≡ false)
    unfolding create_missing
    create_missing_cases p ps w = elim (Bool-cases (fs.is_dir w p)) [
      | inl here ↦ inl (w, here, rw here refl)
      | inr missing ↦ elim (Bool-cases (fs.mkdir w p).0) [
        | inl done ↦ inl ((fs.mkdir w p).1, laws.made w p done, rw (missing, done) refl)
        | inr failed ↦ elim (Bool-cases (fs.is_dir (fs.mkdir w p).1 p)) [
          | inl there ↦ inl ((fs.mkdir w p).1, there, rw (missing, failed, there) refl)
          | inr gone ↦ inr (rw (missing, failed, gone) refl)
        ]
      ]
    ]

    create_missing_lem :
        (ps : List (List ℕ)) (w : fs.World)
        → (create_missing ps w).0 ≡ true
        → All (λ p. fs.is_dir (create_missing ps w).1 p ≡ true) ps
    unfolding create_missing
    create_missing_lem [] w h = tt
    create_missing_lem (p ∷ ps) w h = elim (create_missing_cases p ps w) [
      | inl (v, there, e) ↦
          subst (λ r. All (λ q. fs.is_dir r.1 q ≡ true) (p ∷ ps)) (sym e)
            (create_missing_keeps ps v p there, create_missing_lem ps v (ap (λ r. r.0) (sym e) ∙ h))
      | inr failed ↦ absurd (true≢false (sym h ∙ failed))
    ]

    create_components_lem :
        (ps : List (List ℕ)) (w w' : fs.World)
        → create_components (some (ok ps)) w ≡ some (ok (true, w'))
        → All (λ q. fs.is_dir w' q ≡ true) (prefixes [] ps)
    unfolding create_components
    create_components_lem [] w w' e = absurd (cc e)
    create_components_lem (p ∷ ps) w w' e =
        let done : create_missing (prefixes [] (p ∷ ps)) w ≡ (true, w') = cc e in
        subst (λ r. All (λ q. fs.is_dir r.1 q ≡ true) (prefixes [] (p ∷ ps))) done
          (create_missing_lem (prefixes [] (p ∷ ps)) w (ap (λ r. r.0) done))

    -- If `CreateDirectory` says yes to a path in which each name has a separator behind it, the
    -- path and all its parents are directories when it returns, on a system whose `mkdir` makes
    -- what it says and takes no directory away.
    pub create_directory_lem :
        (ns : List Name) (tail : List ℕ) (w w' : fs.World)
        → create_directory (some (path_of ns ++ (0 ∷ tail))) w ≡ some (ok (true, w'))
        → All (λ q. fs.is_dir w' q ≡ true) (prefixes [] (map component_of ns))
    unfolding create_directory
    create_directory_lem ns tail w w' e =
        create_components_lem (map component_of ns) w w'
          (ap (λ m. create_components m w) (sym (parse_path_components_lem ns tail)) ∙ e)
