-- ===== src/Plugin/RegisterRecorder/Operations.antt =====
-- The operations of `Context` in plugins/csv-register-recorder/src/internal/context.rs. Messages in the
-- log are left out.
pub mod Configured
pub mod Replacing
pub mod Keeping
pub mod Recording
use msr.Prelude.{
  ℕ, String, Option, none, some, List, [], if◌then◌else◌, Result, ok, err, HashMap, get, insert,
}
use msr.Plugin.RegisterRecorder.{
  RegisterGroupConfig, State, Config, Error, group_config_eq, config_eq, state_eq, Recorders,
  Context,
}
use msr.Plugin.RegisterRecorder.Groups.{Made, try_new_group, create_register_group_contexts}

unfoldable pub register_group_config :
    {St : Type 0} → Context St → String → Option RegisterGroupConfig
unfolding get
register_group_config c id = get id c.config.register_groups

-- `switch_state` returns the previous state.
unfoldable pub switch_state : {St : Type 0} → State → Context St → Context St × Result State Error
unfolding state_eq
switch_state new_state c =
    if state_eq c.state new_state
    then (c, ok new_state)
    else (record c { state = new_state }, ok c.state)

module _ {Stamp V World St : Type 0} (recorders : Recorders Stamp V World St) where
  unfoldable pub new_context :
      List ℕ → List ℕ → Config → State → Made World (HashMap St) → Made World (Context St)
  new_context data_path file_name_prefix config state (world, created, err e) =
      (world, created, err e)
  new_context data_path file_name_prefix config state (world, created, ok contexts) = (
    world,
    created,
    ok (record {
      data_path = data_path;
      file_name_prefix = file_name_prefix;
      config = config;
      state = state;
      register_groups = contexts;
    }),
  )

  unfoldable pub try_new : List ℕ → List ℕ → Config → State → World → Made World (Context St)
  unfolding create_register_group_contexts new_context
  try_new data_path file_name_prefix initial_config initial_state world =
      new_context data_path file_name_prefix initial_config initial_state (
        create_register_group_contexts recorders data_path file_name_prefix
          initial_config.register_groups world)

  unfoldable pub config_replaced :
      Config → Context St → Made World (HashMap St) → Context St × Made World Config
  config_replaced new_config c (world, created, err e) = (c, (world, created, err e))
  config_replaced new_config c (world, created, ok contexts) =
      (record c { config = new_config; register_groups = contexts }, (world, created, ok c.config))

  -- `replace_config` returns the previous configuration.
  unfoldable pub replace_config : Config → Context St → World → Context St × Made World Config
  unfolding config_eq create_register_group_contexts config_replaced
  replace_config new_config c world =
      if config_eq c.config new_config
      then (c, (world, [], ok new_config))
      else config_replaced new_config c (
          create_register_group_contexts recorders c.data_path c.file_name_prefix
            new_config.register_groups world)

  unfoldable pub group_replaced :
      String
      → RegisterGroupConfig
      → Option RegisterGroupConfig
      → Context St
      → Made World St
      → Context St × Made World (Option RegisterGroupConfig)
  unfolding insert
  group_replaced id new_config old_config c (world, created, err e) = (c, (world, created, err e))
  group_replaced id new_config old_config c (world, created, ok context) = (
    record c {
      config = record c.config { register_groups = insert id new_config c.config.register_groups };
      register_groups = insert id context c.register_groups;
    },
    (world, created, ok old_config),
  )

  -- The entry of the map of configurations
  unfoldable pub replace_entry :
      String
      → RegisterGroupConfig
      → Context St
      → World
      → Option RegisterGroupConfig
      → Context St × Made World (Option RegisterGroupConfig)
  unfolding try_new_group group_replaced group_config_eq
  replace_entry id new_config c world none =
      group_replaced id new_config none c
        (try_new_group recorders id c.data_path c.file_name_prefix new_config world)
  replace_entry id new_config c world (some old_config) =
      if group_config_eq old_config new_config
      then (c, (world, [], ok (some new_config)))
      else group_replaced id new_config (some old_config) c
          (try_new_group recorders id c.data_path c.file_name_prefix new_config world)

  -- `replace_register_group_config` returns the previous configuration, if there was one.
  unfoldable pub replace_register_group_config :
      String
      → RegisterGroupConfig
      → Context St
      → World
      → Context St × Made World (Option RegisterGroupConfig)
  unfolding replace_entry get
  replace_register_group_config id new_config c world =
      replace_entry id new_config c world (get id c.config.register_groups)
