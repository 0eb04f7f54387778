-- ===== src/Retrieval.antt =====
-- Retrieval: the ranking of search hits by app/manager/rerank.py, and what
-- app/manager/retriever.py keeps of the hits.
pub mod State
pub mod Rerank
pub mod Selection
mod Distinct
mod Places
mod Picks
mod Tests
