-- ===== src/Plugin/RegisterRecorder/Operations/Keeping.antt =====
-- What reading leaves of a context in
-- plugins/csv-register-recorder/src/internal/context.rs.
use msr.Prelude.{
  ℕ, String, ◌≡◌, refl, ◌∙◌, inl, inr, Bool, true, false, Option, none, some, [], ◌∷◌, str_eq,
  Bool-cases, Result, ok, err, HashMap, get,
}
use msr.Storage.{Error as StorageError, RecordPreludeFilter}
use msr.Plugin.RegisterRecorder.{StorageStatus, Error, Recorders, Context}
use msr.Plugin.RegisterRecorder.Observations.{
  set_group, and_status, statuses, group_status, status, records_read, recent_of_group,
  recent_records, filtered_of_group, filter_records,
}
use msr.Plugin.RegisterRecorder.Operations.Configured.{SameKeys, IsConfigured, insert-present}

-- The configuration and the state stay, and so do the groups that have a context.
unfoldable pub Keeps : {St : Type 0} → Context St → Context St → Type 0
unfolding IsConfigured
Keeps c c' = (c'.config ≡ c.config) × (c'.state ≡ c.state) × (IsConfigured c → IsConfigured c')

pub set_group-Keeps :
    {St : Type 0} (id : String) (c : Context St) (context context' : St)
    → get id c.register_groups ≡ some context
    → Keeps c (set_group id context' c)
unfolding Keeps set_group IsConfigured
set_group-Keeps id c context context' h =
    (refl, refl, λ k j. insert-present id context' context c.register_groups h j ∙ k j)

module _ {Stamp V World St : Type 0} (recorders : Recorders Stamp V World St) where
  and_status-SameKeys :
      (id : String) (context : St) (contexts : HashMap St)
      (rest : HashMap St × Result (HashMap StorageStatus) Error)
      (status : St × Result StorageStatus StorageError)
      → SameKeys rest.0 contexts
      → SameKeys (and_status recorders id contexts rest status).0 ((id, context) ∷ contexts)
  unfolding and_status get
  and_status-SameKeys id context contexts rest (context', err e) h j =
      elim (Bool-cases (str_eq id j)) [ inl e ↦ rw e refl | inr e ↦ rw e refl ]
  and_status-SameKeys id context contexts (contexts', res) (context', ok status) h j =
      elim (Bool-cases (str_eq id j)) [ inl e ↦ rw e refl | inr e ↦ rw e (h j) ]

  statuses-SameKeys :
      (with_statistics : Bool) (world : World) (contexts : HashMap St)
      → SameKeys (statuses recorders with_statistics world contexts).0 contexts
  unfolding statuses
  statuses-SameKeys with_statistics world [] j = refl
  statuses-SameKeys with_statistics world ((id, context) ∷ contexts) j =
      and_status-SameKeys id context contexts (statuses recorders with_statistics world contexts)
        (group_status recorders with_statistics world context)
        (statuses-SameKeys with_statistics world contexts) j

  pub status-Keeps :
      (with_groups with_statistics : Bool) (world : World) (c : Context St)
      → Keeps c (status recorders with_groups with_statistics world c).0
  unfolding status Keeps IsConfigured
  status-Keeps true with_statistics world c =
      (refl, refl, λ h j. statuses-SameKeys with_statistics world c.register_groups j ∙ h j)
  status-Keeps false with_statistics world c = (refl, refl, λ h. h)

  recent_of_group-Keeps :
      (id : String) (limit : ℕ) (world : World) (c : Context St) (o : Option St)
      → get id c.register_groups ≡ o
      → Keeps c (recent_of_group recorders id limit world c o).0
  unfolding recent_of_group records_read Keeps
  recent_of_group-Keeps id limit world c none h = (refl, refl, λ k. k)
  recent_of_group-Keeps id limit world c (some context) h =
      set_group-Keeps id c context (recorders.recent_records limit world context).0 h

  pub recent_records-Keeps :
      (id : String) (limit : ℕ) (world : World) (c : Context St)
      → Keeps c (recent_records recorders id limit world c).0
  unfolding recent_records
  recent_records-Keeps id limit world c =
      recent_of_group-Keeps id limit world c (get id c.register_groups) refl

  filtered_of_group-Keeps :
      (id : String) (limit : ℕ) (filter : RecordPreludeFilter) (world : World) (c : Context St)
      (o : Option St)
      → get id c.register_groups ≡ o
      → Keeps c (filtered_of_group recorders id limit filter world c o).0
  unfolding filtered_of_group records_read Keeps
  filtered_of_group-Keeps id limit filter world c none h = (refl, refl, λ k. k)
  filtered_of_group-Keeps id limit filter world c (some context) h =
      set_group-Keeps id c context (recorders.filter_records limit filter world context).0 h

  pub filter_records-Keeps :
      (id : String) (limit : ℕ) (filter : RecordPreludeFilter) (world : World) (c : Context St)
      → Keeps c (filter_records recorders id limit filter world c).0
  unfolding filter_records
  filter_records-Keeps id limit filter world c =
      filtered_of_group-Keeps id limit filter world c (get id c.register_groups) refl
