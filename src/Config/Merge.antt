-- ===== src/Config/Merge.antt =====
-- config_manager.cpp, `update_local_config_from_api`: an answer of the remote interface written over the
-- local file. The disk holds the file and its temporary neighbour.
use frame_processor.Base.{
  ℕ, Bool, true, false, ◌||◌, not, ◌++◌, Option, none, some, Text, codes, ◌>>=◌, take,
  if◌then◌else◌,
}
use frame_processor.Config.Json.{Simdjson, or_else}

pub record Disk : Type 0 where
  pub config_file : Option Text
  pub temp_file : Option Text

-- What the file system does with the calls: whether the temporary file opens, how many of the bytes
-- reach it (`out_file <<` is not checked), and whether the renaming and the removal succeed.
pub record Writing : Type 0 where
  pub opens : Bool
  pub stored : ℕ
  pub renames : Bool
  pub removes : Bool

-- The result and the disk, or an exception of simdjson that nothing catches.
pub data Merge : Type 0 where
  returns : Bool → Disk → Merge
  throws : Merge

-- The writing of a document, its renaming, and the removal of what could not be renamed.
unfoldable pub write_config : Writing → Text → Disk → Bool × Disk
write_config w content d =
    if not w.opens
    then (false, d)
    else if w.renames
    then (true, record { config_file = some (take w.stored content); temp_file = none })
    else (false, record d { temp_file = if w.removes then none else some (take w.stored content) })

abbrev pub is_some {ℓ} : {A : Type ℓ} → Option A → Bool
is_some none = false
is_some (some a) = true

module _ (json : Simdjson) where
  open json use {Element, parse, minify, at_key, overwritten}

  -- The new document.
  unfoldable pub merged_text : Element → Element → Text
  merged_text settings streams =
      codes "{\n  \"global_settings\": "
      ++ (minify settings ++ (codes ",\n  \"streams\": " ++ (minify streams ++ codes "\n}")))

  -- Both members of the local document are read before the answer is looked at, and their absence
  -- throws.
  unfoldable pub merge_documents : Writing → Element → Element → Disk → Merge
  merge_documents w api local d = elim (at_key local (codes "global_settings")) [
    | none ↦ throws
    | some settings ↦ elim (at_key local (codes "streams")) [
      | none ↦ throws
      | some streams ↦
          let settings' = or_else (at_key api (codes "global_settings")) settings in
          let streams' = or_else (at_key api (codes "streams")) streams in
          if is_some (at_key api (codes "global_settings"))
            || is_some (at_key api (codes "streams"))
          then (let (done, d') = write_config w (merged_text settings' streams') d in
              returns done d')
          else returns true d
    ]
  ]

  -- One parser parses the answer and then loads the file, so the answer's document is looked at after
  -- it has been overwritten.
  unfoldable pub update_local_config_from_api : Writing → Text → Disk → Merge
  update_local_config_from_api w api_json d = elim (parse api_json) [
    | none ↦ returns false d
    | some api ↦ elim (d.config_file >>= parse) [
      | none ↦ returns false d
      | some local ↦ merge_documents w (overwritten api local) local d
    ]
  ]
