-- ===== src/Plugin.antt =====
-- The plugins: plugins/csv-register-recorder and plugins/csv-event-journal.
pub mod RegisterRecorder
pub mod EventJournal
