-- ===== src/Plugin/RegisterRecorder/Operations/Replacing.antt =====
-- What `replace_register_group_config` in plugins/csv-register-recorder/src/internal/context.rs does.
use mathlib.Core.Path.{subst}
use msr.Prelude.{
  String, ◌≡◌, refl, sym, ap, ◌∙◌, inl, inr, Option, none, some, str_eq, eq_iff, if◌then◌else◌,
  Bool-cases, ok, err, HashMap, get, get-insert,
}
use msr.Plugin.RegisterRecorder.{RegisterGroupConfig, group_config_eq, Recorders, Context}
use msr.Plugin.RegisterRecorder.Equality.{group_config_equal}
use msr.Plugin.RegisterRecorder.Groups.{Made, try_new_group}
use msr.Plugin.RegisterRecorder.Operations.{
  group_replaced, replace_entry, replace_register_group_config,
}
use msr.Plugin.RegisterRecorder.Operations.Configured.{IsConfigured, insert-SameKeys}

module _ {Stamp V World St : Type 0} (recorders : Recorders Stamp V World St) where
  -- What is left of a context, unless the configuration of the group was replaced
  unfoldable pub ReplacesGroup :
      String
      → RegisterGroupConfig
      → Context St
      → Context St × Made World (Option RegisterGroupConfig)
      → Type 0
  unfolding IsConfigured get
  ReplacesGroup id new_config c (c', (world, created, err e)) = c' ≡ c
  ReplacesGroup id new_config c (c', (world, created, ok old_config)) =
      (old_config ≡ get id c.config.register_groups)
      × ((j : String)
          → get j c'.config.register_groups
            ≡ (if str_eq id j then some new_config else get j c.config.register_groups))
      × (c'.state ≡ c.state)
      × (IsConfigured c → IsConfigured c')

  group_replaced-Replaces :
      (id : String) (new_config : RegisterGroupConfig) (c : Context St) (made : Made World St)
      → ReplacesGroup id new_config c
          (group_replaced recorders id new_config (get id c.config.register_groups) c made)
  unfolding group_replaced ReplacesGroup IsConfigured
  group_replaced-Replaces id new_config c (world, created, err e) = refl
  group_replaced-Replaces id new_config c (world, created, ok context) = (
    refl,
    λ j. get-insert j id new_config c.config.register_groups,
    refl,
    insert-SameKeys id context new_config c.register_groups c.config.register_groups,
  )

  -- A configuration that is equal to the previous one is the one that the map has.
  same_entry :
      (id : String) (new_config : RegisterGroupConfig) (configs : HashMap RegisterGroupConfig)
      → get id configs ≡ some new_config
      → (j : String) → get j configs ≡ (if str_eq id j then some new_config else get j configs)
  same_entry id new_config configs h j = elim (Bool-cases (str_eq id j)) [
    | inl e ↦ rw e (subst (λ k. get k configs ≡ some new_config) ((eq_iff id j).0 e) h)
    | inr e ↦ rw e refl
  ]

  entry-Replaces :
      (id : String) (new_config : RegisterGroupConfig) (c : Context St) (world : World)
      (entry : Option RegisterGroupConfig)
      → get id c.config.register_groups ≡ entry
      → ReplacesGroup id new_config c (replace_entry recorders id new_config c world entry)
  unfolding replace_entry ReplacesGroup
  entry-Replaces id new_config c world none h =
      subst
        (λ entry. ReplacesGroup id new_config c (
          group_replaced recorders id new_config entry c
            (try_new_group recorders id c.data_path c.file_name_prefix new_config world)))
        h
        (group_replaced-Replaces id new_config c
          (try_new_group recorders id c.data_path c.file_name_prefix new_config world))
  entry-Replaces id new_config c world (some old_config) h =
      elim (Bool-cases (group_config_eq old_config new_config)) [
        | inl e ↦
            let is : get id c.config.register_groups ≡ some new_config =
              h ∙ ap some (group_config_equal old_config new_config e) in
            rw e (sym is, same_entry id new_config c.config.register_groups is, refl, λ k. k)
        | inr e ↦ rw e (
            subst
              (λ entry. ReplacesGroup id new_config c (
                group_replaced recorders id new_config entry c
                  (try_new_group recorders id c.data_path c.file_name_prefix new_config world)))
              h
              (group_replaced-Replaces id new_config c
                (try_new_group recorders id c.data_path c.file_name_prefix new_config world)))
      ]

  -- If it fails, `replace_register_group_config` leaves the context as it is. Otherwise it returns the
  -- previous configuration of the group, if there was one, the group has the new one and the others
  -- keep theirs, the state stays, and if exactly the configured groups had a context, they still do.
  pub replace_group-Replaces :
      (id : String) (new_config : RegisterGroupConfig) (c : Context St) (world : World)
      → ReplacesGroup id new_config c
          (replace_register_group_config recorders id new_config c world)
  unfolding replace_register_group_config
  replace_group-Replaces id new_config c world =
      entry-Replaces id new_config c world (get id c.config.register_groups) refl
