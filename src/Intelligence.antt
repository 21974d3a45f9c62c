-- ===== src/Intelligence.antt =====
-- The analyses of stored blocks: src/intelligence/.
pub mod Mev
pub mod Graph
pub mod Actions
pub mod Tables
pub mod Interfaces
pub mod Events
pub mod Persist
pub mod Labels
pub mod Trends
pub mod Export
pub mod Clusters
pub mod Background
pub mod Anomalies
