-- ===== src/Memory/Store.antt =====
-- crates/zerochain-memory/src/graph_store.rs: the contributions as files of one directory, which only
-- grows.
pub mod Kept
pub mod Published
mod Tests
use zerochain.Prelude.{
  ℕ, Bool, true, false, not, ◌&&◌, ◌||◌, Option, none, some, List, [], ◌∷◌, ◌++◌, nat_eq, leb,
  if◌then◌else◌, Text, bytes, text_eq, Result, ok, err, length, drop, all,
}
use zerochain.Text.{is_empty, is_digit, contains_byte}
use zerochain.Text.Search.{starts_with, contains_text, strip_suffix}
use zerochain.Effect.{Effect, ◌>>=◌, ◌>>◌, pure, raise, lift}
use zerochain.Disk.{
  FilePath, ErrorKind, not_found, already_exists, Files, Refusal, write_file, rename_file,
  read_to_string,
}
use zerochain.Disk
use zerochain.Memory.Record.{
  ContributionRecord, InvalidInput, verification, type_eq, validate, id_mismatch, invalid_parent,
  parent_not_found, invalid_target, target_not_found, verifies_verification,
}
use zerochain.Memory.Record.Markdown.{
  MemoryError, io_error, invalid_input, other, Formats, invalid, compute_id, to_markdown,
  from_markdown_with_id,
}

-- The digits of a hash.
abbrev pub is_hex : ℕ → Bool
is_hex b = is_digit b || (leb b'a' b && leb b b'f')

unfoldable pub is_valid_record_id : Text → Bool
is_valid_record_id id =
    nat_eq (length id) 18 && starts_with (bytes "c-") id && all is_hex (drop 2 id)

abbrev pub is_path_shaped : Text → Bool
is_path_shaped id = contains_byte b'/' id || contains_byte b'\\' id || contains_text (bytes "..") id

-- `format!("{id}.md")`, and the same with the extension `md.tmp`.
abbrev pub record_file : Text → Text
record_file id = id ++ bytes ".md"

abbrev pub tmp_file : Text → Text
tmp_file id = id ++ bytes ".md.tmp"

module _ {F : Type 0} (formats : Formats F) (refused : Refusal) (dir : FilePath) where
  abbrev pub Store : Type 0 → Type 0
  Store A = Effect Files MemoryError A

  abbrev pub io : FilePath → (Files → Result ErrorKind (Unit {0}) × Files) → Store (Unit {0})
  io p call files =
      (elim ((call files).0) [ ok a ↦ ok a | err e ↦ err (io_error p e) ], (call files).1)

  unfoldable pub get : Text → Files → Result MemoryError (Option (ContributionRecord F))
  get id files =
      if is_path_shaped id
      then ok none
      else elim (read_to_string refused (record_file id ∷ dir) files) [
        | err not_found ↦ ok none
        | err already_exists ↦ err (io_error (record_file id ∷ dir) already_exists)
        | err ErrorKind.other ↦ err (io_error (record_file id ∷ dir) ErrorKind.other)
        | ok content ↦ elim (from_markdown_with_id formats content id) [
          | ok r ↦ ok (some r)
          | err e ↦ err e
        ]
      ]

  -- An identifier is filled in, or has to be that of the content.
  abbrev pub identified : ContributionRecord F → Result MemoryError (ContributionRecord F)
  identified r =
      if is_empty r.id
      then ok (record r { id = compute_id formats r })
      else if text_eq r.id (compute_id formats r)
      then ok r
      else err (invalid_input (id_mismatch r.id))

  abbrev pub check_parents : List Text → Files → Result MemoryError (Unit {0})
  check_parents [] files = ok tt
  check_parents (parent ∷ parents) files =
      let rest = check_parents parents files in
      if not (is_valid_record_id parent)
      then err (invalid_input (invalid_parent parent))
      else elim (get parent files) [
        | err e ↦ err e
        | ok none ↦ err (invalid_input (parent_not_found parent))
        | ok (some r) ↦ rest
      ]

  abbrev pub check_target : Option Text → Files → Result MemoryError (Unit {0})
  check_target none files = ok tt
  check_target (some target) files =
      if not (is_valid_record_id target)
      then err (invalid_input (invalid_target target))
      else elim (get target files) [
        | err e ↦ err e
        | ok none ↦ err (invalid_input (target_not_found target))
        | ok (some r) ↦
            if type_eq r.record_type verification
            then err (invalid_input verifies_verification)
            else ok tt
      ]

  -- The text is written beside the file and moved, unless the file is there.
  abbrev pub write_record : ContributionRecord F → Text → Store (ContributionRecord F)
  write_record r content files =
      let path : FilePath = record_file r.id ∷ dir in
      let tmp_path : FilePath = tmp_file r.id ∷ dir in
      elim (read_to_string refused path files) [
        | ok existing ↦ (if text_eq existing content then ok r else err (other r.id), files)
        | err not_found ↦
            (io tmp_path (write_file refused tmp_path content) >>= λ done.
            io path (rename_file refused tmp_path path) >>= λ moved. pure r)
              files
        | err already_exists ↦ (err (io_error path already_exists), files)
        | err ErrorKind.other ↦ (err (io_error path ErrorKind.other), files)
      ]

  unfoldable pub publish : ContributionRecord F → Store (ContributionRecord F)
  publish given = do
    valid ← lift (invalid (validate given))
    r ← lift (identified given)
    parents ← λ files. (check_parents r.parents files, files)
    target ← λ files. (check_target r.target files, files)
    content ← lift (to_markdown formats r)
    write_record r content

  -- A file that cannot be read as a record is passed over; a name has the extension `md` if
  -- something stands before it.
  unfoldable pub read_entry : Text → Files → Option (ContributionRecord F)
  read_entry name files = elim (strip_suffix (bytes ".md") name) [
    | none ↦ none
    | some id ↦ if is_empty id then none else elim (read_to_string refused (name ∷ dir) files) [
      | err e ↦ none
      | ok content ↦ elim (from_markdown_with_id formats content id) [
        | err e ↦ none
        | ok r ↦ some r
      ]
    ]
  ]

  unfoldable pub list :
      List (Result ErrorKind Text) → Files → Result MemoryError (List (ContributionRecord F))
  list [] files = ok []
  list (err e ∷ entries) files = err (io_error dir e)
  list (ok name ∷ entries) files =
      let rest = list entries files in
      elim (read_entry name files) [
        | none ↦ rest
        | some r ↦ elim rest [ err e ↦ err e | ok records ↦ ok (r ∷ records) ]
      ]
