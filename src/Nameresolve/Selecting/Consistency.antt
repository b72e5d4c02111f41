-- ===== src/Nameresolve/Selecting/Consistency.antt =====
-- What the bookkeeping of accessed tables reports against what the rewrite does.
