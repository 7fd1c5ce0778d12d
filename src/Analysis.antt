-- ===== src/Analysis.antt =====
-- internal/domain/analysisresult and the scoring of internal/application/command/content.
pub mod Outcome
pub mod Score
pub mod MediaVerdict
pub mod Detectors
pub mod Handler
pub mod Finalize
pub mod Completion
pub mod Admission
pub mod Analyze
mod Tests
