-- ===== src/Tokens.antt =====
-- src/tokens.py: the token estimate of a request, from the counts of its texts, and the cache of
-- tokenizers that are loaded in the background.
pub mod Estimate
pub mod Preload
pub mod Repos
