-- ===== src/Plugin/EventJournal/Recording.antt =====
-- When an entry is recorded in plugins/csv-event-journal/src/internal/context.rs.
use msr.Prelude.{
  ℕ, ◌≤◌, ◌<◌, String, ◌≡◌, refl, inl, inr, Option, none, some, arith, ltb, ltb→lt, Bool-cases,
  Result, ok, err,
}
use msr.Time.{SystemInstant}
use msr.Fs.Csv.{WriteResult}
use msr.Storage.{Error as StorageError}
use msr.EventJournal.{severity_value, Entry}
use msr.EventJournal.Csv.{JournalError, storage, other_error}
use msr.Plugin.RegisterRecorder.{State, inactive, active}
use msr.Plugin.EventJournal.{
  Journals, JournalContext, EntryRecorded, EntryNotRecorded, not_active, severity_below_threshold,
  entry_appended, record_in_state, record_entry,
}

module _ {Stamp World St : Type 0} (journals : Journals Stamp World St) where
  -- The plugin is active, and the severity is at the threshold or above.
  unfoldable pub IsAdmitted : Entry Stamp → JournalContext St → Type 0
  unfolding severity_value
  IsAdmitted new_entry c =
      (c.state ≡ active)
      × (severity_value c.config.severity_threshold ≤ severity_value new_entry.severity)

  -- What the storage makes of the entry
  abbrev pub appended :
      Entry Stamp
      → SystemInstant
      → String
      → JournalContext St
      → World
      → Option (St × World × Result (WriteResult × ℕ) StorageError)
  appended new_entry now id c world =
      journals.append_record now (record { id = id; created_at_offset = 0; entry = new_entry })
        world c.storage

  -- What `record_entry` has done
  unfoldable pub RecordsEntry :
      Entry Stamp
      → SystemInstant
      → String
      → JournalContext St
      → World
      → Option
          (JournalContext St × World × Result (Result EntryRecorded EntryNotRecorded) JournalError)
      → Type 0
  unfolding IsAdmitted severity_value
  RecordsEntry new_entry now id c world none =
      IsAdmitted new_entry c × (appended new_entry now id c world ≡ none)
  RecordsEntry new_entry now id c world (some (c', world', ok (err not_active))) =
      (c.state ≡ inactive) × (c' ≡ c) × (world' ≡ world)
  RecordsEntry new_entry now id c world (some (c', world', ok (err severity_below_threshold))) =
      (c.state ≡ active)
      × (severity_value new_entry.severity < severity_value c.config.severity_threshold)
      × (c' ≡ c)
      × (world' ≡ world)
  RecordsEntry new_entry now id c world (some (c', world', ok (ok recorded))) =
      IsAdmitted new_entry c
      × (recorded.id ≡ id)
      × (recorded.created_at ≡ now.system_time)
      × ((s : St) × (w : WriteResult × ℕ) × (appended new_entry now id c world
            ≡ some (s, world', ok w))
          × (c' ≡ record c { storage = s }))
  RecordsEntry new_entry now id c world (some (c', world', err (storage e))) =
      IsAdmitted new_entry c
      × ((s : St) × (appended new_entry now id c world ≡ some (s, world', err e))
          × (c' ≡ record c { storage = s }))
  RecordsEntry new_entry now id c world (some (c', world', err (other_error text))) = ⊥

  appended-RecordsEntry :
      (new_entry : Entry Stamp) (now : SystemInstant) (id : String) (c : JournalContext St)
      (world : World)
      → IsAdmitted new_entry c
      → (o : Option (St × World × Result (WriteResult × ℕ) StorageError))
      → appended new_entry now id c world ≡ o
      → RecordsEntry new_entry now id c world
          (entry_appended journals (record { id = id; created_at = now.system_time }) c o)
  unfolding RecordsEntry entry_appended
  appended-RecordsEntry new_entry now id c world h none e = (h, e)
  appended-RecordsEntry new_entry now id c world h (some (s, world', err x)) e = (h, (s, e, refl))
  appended-RecordsEntry new_entry now id c world h (some (s, world', ok w)) e =
      (h, refl, refl, (s, w, e, refl))

  state-RecordsEntry :
      (state : State) (new_entry : Entry Stamp) (now : SystemInstant) (id : String)
      (c : JournalContext St) (world : World)
      → c.state ≡ state
      → RecordsEntry new_entry now id c world
          (record_in_state journals state new_entry now id c world)
  unfolding RecordsEntry record_in_state IsAdmitted
  state-RecordsEntry inactive new_entry now id c world h = (h, refl, refl)
  state-RecordsEntry active new_entry now id c world h =
      elim (Bool-cases
        (ltb (severity_value new_entry.severity) (severity_value c.config.severity_threshold))) [
          | inl e ↦ rw e (
            h,
            ltb→lt (severity_value new_entry.severity) (severity_value c.config.severity_threshold)
                e,
            refl,
            refl,
          )
          | inr e ↦ rw e (
              appended-RecordsEntry new_entry now id c world (h, ground (arith, e))
                (appended new_entry now id c world) refl)
        ]

  -- While inactive, an entry is discarded, and so is one whose severity is below the threshold while
  -- active; nothing changes then. Any other entry is appended to the storage with the identifier that
  -- was generated, the storage and the world become what appending leaves, and nothing else changes;
  -- its error is returned, and otherwise the identifier and the time stamp that were generated. It panics only
  -- if appending does.
  pub record_entry-RecordsEntry :
      (new_entry : Entry Stamp) (now : SystemInstant) (id : String) (c : JournalContext St)
      (world : World)
      → RecordsEntry new_entry now id c world (record_entry journals new_entry now id c world)
  unfolding record_entry
  record_entry-RecordsEntry new_entry now id c world =
      state-RecordsEntry c.state new_entry now id c world refl
