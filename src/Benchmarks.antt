-- ===== src/Benchmarks.antt =====
-- src/benchmarks.py: names, scores and the pages that they come in, and the cache of src/db.py.
pub mod Names
pub mod Scores
pub mod Paging
pub mod Cache
