-- ===== src/Plugin/RegisterRecorder/Groups.antt =====
-- How plugins/csv-register-recorder/src/internal/context.rs makes the contexts of groups. An operation
-- returns the file system and the directories that the callback is called with.
use msr.Prelude.{ℕ, String, List, [], ◌∷◌, ◌++◌, if◌then◌else◌, Result, ok, err, HashMap, insert}
use msr.Fs.System.{IoError}
use msr.Register.Recorder.{RecorderError}
use msr.Plugin.RegisterRecorder.{RegisterGroupConfig, Error, io, other, Recorders, Created}

-- What an operation that makes contexts does: the file system, the calls of the callback, and a
-- result
abbrev pub Made : Type 0 → Type 0 → Type 0
Made World A = World × List Created × Result A Error

-- `map_err(anyhow::Error::from)?`
unfoldable pub new_storage : {St : Type 0} → Result St RecorderError → Result St Error
new_storage (ok s) = ok s
new_storage (err e) = err (other e)

module _ {Stamp V World St : Type 0} (recorders : Recorders Stamp V World St) where
  unfoldable pub directory_created :
      String → List ℕ → Result St Error → World × Result {0, 0} Unit IoError → Made World St
  directory_created id path storage (world, err e) = (world, [], err (io e))
  directory_created id path storage (world, ok _) = (world, (id, path) ∷ [], storage)

  -- `RegisterGroupContext::try_new`
  unfoldable pub try_new_group :
      String → List ℕ → List ℕ → RegisterGroupConfig → World → Made World St
  unfolding directory_created new_storage
  try_new_group id data_path file_name_prefix config world =
      let path = recorders.push data_path (recorders.encode id) in
      let storage =
        new_storage (recorders.try_new config.storage path file_name_prefix config.registers) in
      if recorders.is_dir path world
      then (world, [], storage)
      else directory_created id path storage (recorders.create_dir_all path world)

  -- `?`, and the next turn with the context inserted; calls that were made stay made.
  unfoldable pub and_insert :
      String
      → HashMap St
      → (World → HashMap St → Made World (HashMap St))
      → Made World St
      → Made World (HashMap St)
  unfolding insert
  and_insert id contexts rest (world, created, err e) = (world, created, err e)
  and_insert id contexts rest (world, created, ok context) =
      let (world', created', res) = rest world (insert id context contexts) in
      (world', created ++ created', res)

  unfoldable pub create_contexts :
      List ℕ → List ℕ → HashMap RegisterGroupConfig → World → HashMap St → Made World (HashMap St)
  unfolding try_new_group and_insert
  create_contexts data_path file_name_prefix [] world contexts = (world, [], ok contexts)
  create_contexts data_path file_name_prefix ((id, config) ∷ configs) world contexts =
      and_insert id contexts (create_contexts data_path file_name_prefix configs)
        (try_new_group id data_path file_name_prefix config world)

  unfoldable pub create_register_group_contexts :
      List ℕ → List ℕ → HashMap RegisterGroupConfig → World → Made World (HashMap St)
  unfolding create_contexts
  create_register_group_contexts data_path file_name_prefix configs world =
      create_contexts data_path file_name_prefix configs world []
