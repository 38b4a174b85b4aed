-- ===== src/Plugin/RegisterRecorder/Operations/Configured.antt =====
-- In plugins/csv-register-recorder/src/internal/context.rs a group has a context exactly if it is
-- configured, and an operation that fails leaves the configuration as it is.
use mathlib.Core.Path.{subst}
use msr.Prelude.{
  ℕ, String, ◌≡◌, refl, sym, ap, ◌∙◌, ◌⊎◌, inl, inr, Bool, true, false, ◌||◌, Option, none, some,
  List, [], ◌∷◌, ◌++◌, str_eq, eq_iff, if◌then◌else◌, Bool-cases, ok, err, HashMap, get, insert,
  get-insert,
}
use msr.Plugin.RegisterRecorder.{
  RegisterGroupConfig, State, Config, config_eq, Recorders, Context, Created,
}
use msr.Plugin.RegisterRecorder.Groups.{
  Made, try_new_group, and_insert, create_contexts, create_register_group_contexts,
}
use msr.Plugin.RegisterRecorder.Operations.{new_context, try_new, config_replaced, replace_config}

abbrev pub is_some : {A : Type 0} → Option A → Bool
is_some none = false
is_some (some a) = true

-- The two maps have the same keys.
abbrev pub SameKeys : {A B : Type 0} → HashMap A → HashMap B → Type 0
SameKeys a b = (id : String) → is_some (get id a) ≡ is_some (get id b)

unfoldable pub IsConfigured : {St : Type 0} → Context St → Type 0
IsConfigured c = SameKeys c.register_groups c.config.register_groups

if_some :
    {A : Type 0} (b : Bool) (a : A) (o : Option A)
    → is_some (if b then some a else o) ≡ (b || is_some o)
if_some true a o = refl
if_some false a o = refl

-- An entry with the same key keeps the keys the same.
pub insert-SameKeys :
    {A B : Type 0} (id : String) (x : A) (y : B) (a : HashMap A) (b : HashMap B)
    → SameKeys a b
    → SameKeys (insert id x a) (insert id y b)
insert-SameKeys id x y a b h j =
    ap is_some (get-insert j id x a)
    ∙ if_some (str_eq id j) x (get j a)
    ∙ ap (λ o. str_eq id j || o) (h j)
    ∙ sym (if_some (str_eq id j) y (get j b))
    ∙ sym (ap is_some (get-insert j id y b))

-- If a group has a context already, its context may be replaced.
pub insert-present :
    {A : Type 0} (id : String) (x y : A) (a : HashMap A)
    → get id a ≡ some y
    → SameKeys (insert id x a) a
insert-present id x y a h j = elim (Bool-cases (str_eq id j)) [
  | inl e ↦
      let same : id ≡ j = (eq_iff id j).0 e in
      ap is_some (get-insert j id x a)
      ∙ (rw e (sym (ap is_some (subst (λ k. get k a ≡ some y) same h))))
  | inr e ↦ ap is_some (get-insert j id x a) ∙ (rw e refl)
]

module _ {Stamp V World St : Type 0} (recorders : Recorders Stamp V World St) where
  -- Contexts were made for these configurations, besides those there were.
  Covers : HashMap RegisterGroupConfig → HashMap St → Made World (HashMap St) → Type 0
  Covers configs contexts (world, created, err e) = Unit
  Covers configs contexts (world, created, ok made) =
      (id : String)
      → is_some (get id made) ≡ (is_some (get id configs) || is_some (get id contexts))

  or_later : (a b c : Bool) → (a || (b || c)) ≡ ((b || a) || c)
  or_later true true c = refl
  or_later true false c = refl
  or_later false true c = refl
  or_later false false c = refl

  Covers-after :
      (id : String) (config : RegisterGroupConfig) (configs : HashMap RegisterGroupConfig)
      (contexts : HashMap St) (context : St) (created : List Created)
      (made : Made World (HashMap St))
      → Covers configs (insert id context contexts) made
      → Covers ((id, config) ∷ configs) contexts (made.0, created ++ made.1, made.2)
  unfolding Covers get
  Covers-after id config configs contexts context created (world, created', err e) h = tt
  Covers-after id config configs contexts context created (world, created', ok made) h = λ j.
      h j
      ∙ ap (λ b. is_some (get j configs) || b)
          (ap is_some (get-insert j id context contexts)
            ∙ if_some (str_eq id j) context (get j contexts))
      ∙ or_later (is_some (get j configs)) (str_eq id j) (is_some (get j contexts))
      ∙ ap (λ b. b || is_some (get j contexts)) (sym (if_some (str_eq id j) config (get j configs)))

  and_insert-Covers :
      (id : String) (config : RegisterGroupConfig) (configs : HashMap RegisterGroupConfig)
      (contexts : HashMap St) (rest : World → HashMap St → Made World (HashMap St))
      (made : Made World St)
      → ((world : World) (contexts : HashMap St) → Covers configs contexts (rest world contexts))
      → Covers ((id, config) ∷ configs) contexts (and_insert recorders id contexts rest made)
  unfolding and_insert Covers
  and_insert-Covers id config configs contexts rest (world, created, err e) h = tt
  and_insert-Covers id config configs contexts rest (world, created, ok context) h =
      Covers-after id config configs contexts context created
        (rest world (insert id context contexts)) (h world (insert id context contexts))

  create_contexts-Covers :
      (data_path file_name_prefix : List ℕ) (configs : HashMap RegisterGroupConfig) (world : World)
      (contexts : HashMap St)
      → Covers configs contexts
          (create_contexts recorders data_path file_name_prefix configs world contexts)
  unfolding create_contexts Covers get
  create_contexts-Covers data_path file_name_prefix [] world contexts = λ id. refl
  create_contexts-Covers data_path file_name_prefix ((id, config) ∷ configs) world contexts =
      and_insert-Covers id config configs contexts
        (create_contexts recorders data_path file_name_prefix configs)
        (try_new_group recorders id data_path file_name_prefix config world)
        (create_contexts-Covers data_path file_name_prefix configs)

  -- What a new context is
  unfoldable pub IsNew : Config → State → Made World (Context St) → Type 0
  unfolding IsConfigured
  IsNew config state (world, created, err e) = Unit
  IsNew config state (world, created, ok c) =
      IsConfigured c × (c.config ≡ config) × (c.state ≡ state)

  or_false : (b : Bool) → (b || false) ≡ b
  or_false true = refl
  or_false false = refl

  new_context-IsNew :
      (data_path file_name_prefix : List ℕ) (config : Config) (state : State)
      (made : Made World (HashMap St))
      → Covers config.register_groups [] made
      → IsNew config state (new_context recorders data_path file_name_prefix config state made)
  unfolding new_context IsNew Covers get IsConfigured
  new_context-IsNew data_path file_name_prefix config state (world, created, err e) h = tt
  new_context-IsNew data_path file_name_prefix config state (world, created, ok contexts) h =
      (λ id. h id ∙ or_false (is_some (get id config.register_groups)), refl, refl)

  -- If `Context::try_new` succeeds, exactly the configured groups have a context.
  try_new-IsNew :
      (data_path file_name_prefix : List ℕ) (config : Config) (state : State) (world : World)
      → IsNew config state (try_new recorders data_path file_name_prefix config state world)
  unfolding try_new create_register_group_contexts
  try_new-IsNew data_path file_name_prefix config state world =
      new_context-IsNew data_path file_name_prefix config state
        (create_contexts recorders data_path file_name_prefix config.register_groups world [])
        (create_contexts-Covers data_path file_name_prefix config.register_groups world [])

  -- What is left of a context, unless the configuration was replaced
  unfoldable pub ReplacesConfig :
      Config → Context St → World → Context St × Made World Config → Type 0
  unfolding IsConfigured
  ReplacesConfig new_config c world (c', (world', created, err e)) =
      (c' ≡ c) × (config_eq c.config new_config ≡ false)
  ReplacesConfig new_config c world (c', (world', created, ok old_config)) =
      ((config_eq c.config new_config ≡ true)
        × (c' ≡ c)
        × (old_config ≡ new_config)
        × (world' ≡ world)
        × (created ≡ []))
      ⊎ ((config_eq c.config new_config ≡ false)
          × IsConfigured c'
          × (c'.config ≡ new_config)
          × (c'.state ≡ c.state)
          × (old_config ≡ c.config))

  config_replaced-Replaces :
      (new_config : Config) (c : Context St) (world : World) (made : Made World (HashMap St))
      → config_eq c.config new_config ≡ false
      → Covers new_config.register_groups [] made
      → ReplacesConfig new_config c world (config_replaced recorders new_config c made)
  unfolding config_replaced ReplacesConfig Covers get IsConfigured
  config_replaced-Replaces new_config c world (world', created, err e) n h = (refl, n)
  config_replaced-Replaces new_config c world (world', created, ok contexts) n h =
      inr (n, λ id. h id ∙ or_false (is_some (get id new_config.register_groups)), refl, refl, refl)

  -- If the new configuration compares as equal, `replace_config` succeeds, returns it and changes
  -- nothing, and if it fails, the context stays as it is. Otherwise it returns the previous
  -- configuration, the new one takes its place, exactly the groups that it configures have a context,
  -- and the state stays.
  pub replace_config-Replaces :
      (new_config : Config) (c : Context St) (world : World)
      → ReplacesConfig new_config c world (replace_config recorders new_config c world)
  unfolding replace_config ReplacesConfig create_register_group_contexts
  replace_config-Replaces new_config c world = elim (Bool-cases (config_eq c.config new_config)) [
    | inl e ↦ rw e (inl (e, refl, refl, refl, refl))
    | inr e ↦ rw e (
        config_replaced-Replaces new_config c world
          (create_contexts recorders c.data_path c.file_name_prefix new_config.register_groups world
            [])
          e
          (create_contexts-Covers c.data_path c.file_name_prefix new_config.register_groups world
            []))
  ]
