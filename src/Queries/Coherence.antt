-- ===== src/Queries/Coherence.antt =====
-- What the mutations of frontend/lib/queries leave in the cache of the queries.
pub mod Client
pub mod Kept
