-- ===== src/Examples.antt =====
-- The theorems at concrete inputs, and tests of the definitions by evaluation.
mod Toy
mod ContractExamples
mod CanonicalExamples
mod RunStoreExamples
mod CheckpointsExamples
mod JournalExamples
mod TelemetryExamples
mod CatalogExamples
mod ExportsExamples
mod TopographExamples
mod LockExamples
mod WeightCacheExamples
mod InheritExamples
mod StreamsExamples
