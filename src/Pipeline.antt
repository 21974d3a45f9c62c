-- ===== src/Pipeline.antt =====
-- The pipeline: src/pipeline/.
pub mod Committer
pub mod Scheduler
pub mod HeadWatcher
pub mod Sequencer
pub mod Channel
pub mod Worker
pub mod Rounds
