-- ===== src/Tests.antt =====
-- A small map of two versions of one key, and a node that is about to be linked, on which the
-- theorems are run.
mod Map
mod Links
mod Words
