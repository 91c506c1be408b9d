-- ===== src/Disk.antt =====
-- What the program uses of `tokio::fs` and `std::fs`: the regular files by their paths, and calls that
-- change them or fail. Directories are made on demand and are not recorded, so that
-- `create_dir_all` only checks that the path is not refused. A path is the list of its components,
-- the last one first.
use zerochain.Prelude.{
  ◌≡◌, ◌↔◌, refl, Bool, true, false, ◌&&◌, Option, none, some, List, [], ◌∷◌, if◌then◌else◌, Text,
  text_eq, text_eq_iff, Result, ok, err, arith,
}

abbrev pub FilePath : Type 0
FilePath = List Text

abbrev pub path_eq : FilePath → FilePath → Bool
path_eq [] [] = true
path_eq [] (y ∷ q) = false
path_eq (x ∷ p) [] = false
path_eq (x ∷ p) (y ∷ q) = text_eq x y && path_eq p q

pub path_eq_iff : (p q : FilePath) → (path_eq p q ≡ true) ↔ (p ≡ q)
path_eq_iff [] [] = (λ e. refl, λ e. refl)
path_eq_iff [] (y ∷ q) = (λ e. absurd cc, λ e. absurd cc)
path_eq_iff (x ∷ p) [] = (λ e. absurd cc, λ e. absurd cc)
path_eq_iff (x ∷ p) (y ∷ q) = ground (arith, text_eq_iff x y, path_eq_iff p q)

-- `io::ErrorKind`, as far as the program looks at it.
pub data ErrorKind : Type 0 where
  not_found already_exists other : ErrorKind

abbrev pub Files : Type 0
Files = FilePath → Option Text

-- The paths at which the operating system refuses every call.
abbrev pub Refusal : Type 0
Refusal = FilePath → Bool

abbrev pub Io : Type 0 → Type 0
Io A = Result ErrorKind A × Files

abbrev pub set_file : FilePath → Option Text → Files → Files
set_file p content files q = if path_eq p q then content else files q

abbrev pub create_dir_all : Refusal → FilePath → Files → Io (Unit {0})
create_dir_all refused p files = (if refused p then err other else ok tt, files)

abbrev pub write_file : Refusal → FilePath → Text → Files → Io (Unit {0})
write_file refused p content files =
    if refused p then (err other, files) else (ok tt, set_file p (some content) files)

abbrev pub rename_file : Refusal → FilePath → FilePath → Files → Io (Unit {0})
rename_file refused p q files = if refused q then (err other, files) else elim (files p) [
  | none ↦ (err not_found, files)
  | some content ↦ (ok tt, set_file q (some content) (set_file p none files))
]

abbrev pub remove_file : Refusal → FilePath → Files → Io (Unit {0})
remove_file refused p files = if refused p then (err other, files) else elim (files p) [
  | none ↦ (err not_found, files)
  | some content ↦ (ok tt, set_file p none files)
]

-- `create_new(true).open(path)`: the file is made, empty, only if there is none.
abbrev pub create_new : Refusal → FilePath → Files → Io (Unit {0})
create_new refused p files = if refused p then (err other, files) else elim (files p) [
  | none ↦ (ok tt, set_file p (some []) files)
  | some content ↦ (err already_exists, files)
]

abbrev pub read_to_string : Refusal → FilePath → Files → Result ErrorKind Text
read_to_string refused p files =
    if refused p
    then err other
    else elim (files p) [ none ↦ err not_found | some content ↦ ok content ]

abbrev pub try_exists : Refusal → FilePath → Files → Result ErrorKind Bool
try_exists refused p files =
    if refused p then err other else elim (files p) [ none ↦ ok false | some content ↦ ok true ]
