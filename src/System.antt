-- ===== src/System.antt =====
-- A proxy at work: the constructor, and then, in any order, public calls (include/elliptics/proxy.hpp)
-- and rounds of the thread that renews the weights (src/proxy.cpp). A call is one step.
pub mod Keeping
pub mod Methods
pub mod Sessions
pub mod Writes
pub mod Newest
pub mod Steady
pub mod Informed
use libelliptics_proxy.Base.{ℕ, ℤ, Bool, List, Option, Bytes, [], ◌≡◌}
use libelliptics_proxy.Result.{ok}
use libelliptics_proxy.Ids.{Key}
use libelliptics_proxy.Config.{Config}
use libelliptics_proxy.Lifetime.{settings_of, open_proxy}
use libelliptics_proxy.Metabase.{
  collect_round, get_metabalancer_group_info, get_symmetric_groups, get_bad_groups, get_all_groups,
}
use libelliptics_proxy.Public.{
  WriteOptions, ReadOptions, RangeOptions, lookup, write, read, remove, range_get, bulk_read,
  lookup_addr, bulk_write, get_metabalancer_groups_of,
}
use libelliptics_proxy.Proxy.{External, Settings, World}

-- The world behind a call, however it ended; `garbage` is the column of a default key.
pub data Step (x : External) (c : Settings) (garbage : ℤ) (w : World) : World → Type 0 where
  looks_up : (key : Key) (groups : Option (List ℤ)) → Step x c garbage w (lookup x c key groups w).1
  writes :
      (key : Key) (content : Bytes) (o : WriteOptions)
      → Step x c garbage w (write x c key content o w).1
  reads : (key : Key) (o : ReadOptions) → Step x c garbage w (read x c key o w).1
  removes : (key : Key) (groups : Option (List ℤ)) → Step x c garbage w (remove x c key groups w).1
  gets_range :
      (from to : Key) (o : RangeOptions) → Step x c garbage w (range_get x c garbage from to o w).1
  reads_bulk :
      (keys : List Key) (cflags : Option ℕ) (groups : Option (List ℤ))
      → Step x c garbage w (bulk_read x c garbage keys cflags groups w).1
  looks_up_addresses :
      (key : Key) (groups : Option (List ℤ)) → Step x c garbage w (lookup_addr x c key groups w).1
  writes_bulk :
      (keys : List Key) (contents : List Bytes) (cflags : Option ℕ) (groups : Option (List ℤ))
      (success_copies_num : Option ℤ)
      → Step x c garbage w
          (bulk_write x c garbage keys contents cflags groups success_copies_num w).1
  balances :
      (count size : Option ℕ) (key : Option Key)
      → Step x c garbage w (get_metabalancer_groups_of x c count size key w).1
  asks_about : (group : ℤ) → Step x c garbage w (get_metabalancer_group_info x c group w).1
  lists_symmetric : Step x c garbage w (get_symmetric_groups x c w).1
  lists_bad : Step x c garbage w (get_bad_groups x c w).1
  lists_all : Step x c garbage w (get_all_groups x c w).1
  renews : Step x c garbage w (collect_round x c w).1

-- The worlds of a proxy that was opened with a configuration as the first thing of a process, where
-- the memory of the stamp held `stamp`.
pub data Reach (x : External) (config : Config) (garbage : ℤ) (stamp : ℕ) : World → Type 0 where
  opened :
      (w : World) {w' : World}
      → w.trace ≡ []
      → open_proxy x stamp config w ≡ (ok (settings_of config), w')
      → Reach x config garbage stamp w'
  later :
      {w w' : World}
      → Reach x config garbage stamp w
      → Step x (settings_of config) garbage w w'
      → Reach x config garbage stamp w'

-- Any number of steps.
pub data Steps (x : External) (c : Settings) (garbage : ℤ) (w : World) : World → Type 0 where
  done : Steps x c garbage w w
  further :
      {w' w'' : World} → Steps x c garbage w w' → Step x c garbage w' w'' → Steps x c garbage w w''
