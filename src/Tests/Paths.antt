-- ===== src/Tests/Paths.antt =====
-- Runs of mac/chatkit/cim/base/file/file_util.cpp.
use coffee_chat_desktop.Prelude.{◌≡◌, refl, [], ◌∷◌, map, true, false, Bool, All}
use coffee_chat_desktop.Files.{
  find_separator, skip_separators, component, push_front, parse_from, parse_path_components,
}
use coffee_chat_desktop.Files.Paths.{Name, component_of}
use coffee_chat_desktop.Files.Directories.{
  FileSystem, IsFileSystem, prefixes, create_missing, create_components, create_directory,
  create_directory_lem,
}

-- "a" and "logs"
abbrev pub a : Name
a = record { first = b'a'; others = []; proper = (refl, refl); all_proper = tt }

abbrev pub logs : Name
logs = record {
  first = b'l';
  others = b'o' ∷ b'g' ∷ b's' ∷ [];
  proper = (refl, refl);
  all_proper = ((refl, refl), ((refl, refl), ((refl, refl), tt)));
}

-- A system whose world says whether all directories are there, and which `mkdir` makes so.
abbrev pub willing : FileSystem
willing = record {
  World = Bool;
  is_dir = λ w p. w;
  accessible = λ w p. w;
  mkdir = λ w p. (true, true);
}

willing-IsFileSystem : IsFileSystem willing
willing-IsFileSystem = record { made = λ w p e. refl; kept = λ w p q e. refl }

create_directory_lem_example :
    All (λ q. true ≡ true) (prefixes [] (map component_of (a ∷ logs ∷ [])))
unfolding create_directory create_components create_missing parse_path_components parse_from
    find_separator component skip_separators push_front prefixes
create_directory_lem_example =
    create_directory_lem willing willing-IsFileSystem (a ∷ logs ∷ []) [] false true refl
