-- ===== src/Weights/Threads/Whole.antt =====
-- The threads' steps at the cache of src/group_weights_cache.cpp, against whole calls.
use libelliptics_proxy.Weights.Threads.{Threads}
