-- ===== src/Storage/Files.antt =====
-- node/storage/saver.go and loader.go.
use sum.Prelude.{String, Option, none, some, true, false, List, [], ◌∷◌}
use sum.Prelude.Tests.{Result, ok, err, ◌◇◌, ◌==◌, string_eq, if◌then◌else◌}
use sum.Prelude.Map.{put}
use sum.Storage.Env.{Env}

-- The errors of the storage, before they are turned into text.
pub data Error : Type 0 where
  invalid_id record_not_found : Error
  serializing saving reading deserializing : String → String → Error
  not_a_folder : String → Error
  system : String → Error

-- what `%s` prints of each
unfoldable pub error_text : Error → String
error_text invalid_id = "identifier is not unique"
error_text record_not_found = "record not found"
error_text (serializing p e) = "Error while serializing message to " ◇ p ◇ ": " ◇ e
error_text (saving p e) = "Error while saving message to " ◇ p ◇ ": " ◇ e
error_text (reading p e) = "error while reading " ◇ p ◇ ": " ◇ e
error_text (deserializing p e) = "error while deserializing " ◇ p ◇ ": " ◇ e
error_text (not_a_folder p) = p ◇ " is not a folder"
error_text (system e) = e

abbrev pub dat_file_ext : String
dat_file_ext = ".dat"

module _ {M : Type 0} (env : Env M) where
  open env use {
    Disk, Bytes, marshal, unmarshal, write_file, read_file, abs, is_dir, read_dir, ext, join,
    strip_ext,
  }

  save_outcome : String → Disk × Option String → Disk × Option Error
  save_outcome p (disk, none) = (disk, none)
  save_outcome p (disk, some e) = (disk, some (saving p e))

  unfoldable pub flush : M → String → Disk → Disk × Option Error
  unfolding save_outcome
  flush m p disk = elim (marshal m) [
    | err e ↦ (disk, some (serializing p e))
    | ok b ↦ save_outcome p (write_file disk p b)
  ]

  unfoldable pub load_file : String → Disk → Result Error M
  load_file p disk = elim (read_file disk p) [
    | err e ↦ err (reading p e)
    | ok b ↦ elim (unmarshal b) [ err e ↦ err (deserializing p e) | ok m ↦ ok m ]
  ]

  -- the loop of ListPath, over the names in the folder
  loadable : String → List String → List (String × String) → List (String × String)
  loadable p [] files = files
  loadable p (name ∷ names) files =
      loadable p names
        (if ext name == dat_file_ext then put (strip_ext name) (join p name) files else files)

  unfoldable pub list_path : String → Disk → Result Error (String × List (String × String))
  unfolding loadable
  list_path data_path disk =
      let p = abs data_path in
      elim (is_dir disk p) [
        | err e ↦ err (system e)
        | ok false ↦ err (not_a_folder p)
        | ok true ↦ elim (read_dir disk p) [
          | err e ↦ err (system e)
          | ok names ↦ ok (p, loadable p names [])
        ]
      ]
