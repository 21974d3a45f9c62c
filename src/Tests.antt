-- ===== src/Tests.antt =====
-- The theorems at concrete inputs.
mod Data
mod Decoding
mod Storing
mod Running
mod Resuming
mod Caching
mod Configuring
mod Analysing
mod Exploring
mod Explaining
mod Sorting
mod Asking
mod Paging
mod Persisting
mod Clustering
mod Serving
