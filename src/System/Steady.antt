-- ===== src/System/Steady.antt =====
-- What holds of a proxy however its calls and the rounds of its thread follow one another
-- (include/elliptics/proxy.hpp, src/proxy.cpp, src/group_weights_cache.cpp).
use libelliptics_proxy.Base.{ℕ, ◌<◌, ◌≡◌, refl, ap, ℤ, List, [], ◌∷◌, word, All, arith}
use libelliptics_proxy.Result.{ok, is_std}
use libelliptics_proxy.Config.{Remote, Config}
use libelliptics_proxy.Lifetime.{
  settings_of, fresh_members, add_remotes, open_dealer_of, start_thread_of, open_body, open_proxy,
}
use libelliptics_proxy.Weights.{MetabaseGroupWeightsResponse, choose}
use libelliptics_proxy.Weights.Choice.{weight_sum, pick, get-add_all}
use libelliptics_proxy.Weights.Caching.{offered, IsBalancedSize, offered-IsBalanced, at_or-nil}
use libelliptics_proxy.Public.{
  lookup, write, read, remove, range_get, bulk_read, lookup_addr, bulk_write,
  get_metabalancer_groups_of,
}
use libelliptics_proxy.Proxy.{External, Settings, World, Event}
use libelliptics_proxy.System.{
  Step, Reach, looks_up, writes, reads, removes, gets_range, reads_bulk, looks_up_addresses,
  writes_bulk, balances, asks_about, lists_symmetric, lists_bad, lists_all, renews, opened, later,
}
use libelliptics_proxy.System.Keeping.{
  Preserves, IsKept, tell-Preserves, ask-Preserves, catching-Preserves, bind-Preserves, parts,
}
use libelliptics_proxy.System.Methods.{
  collect_round-Preserves, get_metabalancer_groups-Preserves, get_metabalancer_group_info-Preserves,
  get_symmetric_groups-Preserves, get_bad_groups-Preserves, get_all_groups-Preserves,
}
use libelliptics_proxy.System.Sessions.{
  lookup_impl-Preserves, remove_impl-Preserves, range_get_impl-Preserves,
  lookup_addr_impl-Preserves, read_impl-Preserves, bulk_read_impl-Preserves,
  bulk_write_impl-Preserves,
}
use libelliptics_proxy.System.Writes.{write_impl-Preserves}
use libelliptics_proxy.System.Newest.{newest, IsSteady, newest-IsBalanced, IsSteady-IsKept}

module _ {x : External} {c : Settings} {I : World → Type 0} (keep : IsKept x c I) where
  add_remotes-Preserves : (rs : List Remote) → Preserves I (add_remotes x rs)
  unfolding add_remotes
  add_remotes-Preserves [] = search parts
  add_remotes-Preserves (r ∷ rs) =
      bind-Preserves
        (catching-Preserves is_std (ask-Preserves keep x.done _ refl)
          λ e. tell-Preserves keep _ refl)
        λ u. add_remotes-Preserves rs

  open_dealer_of-Preserves : (config : Config) → Preserves I (open_dealer_of x config)
  unfolding open_dealer_of
  open_dealer_of-Preserves config = search (parts, ask-Preserves keep) depth 9

  start_thread_of-Preserves : (s : Settings) → Preserves I (start_thread_of x s)
  unfolding start_thread_of
  start_thread_of-Preserves s = search (parts, ask-Preserves keep) depth 9

  open_body-Preserves : (config : Config) → Preserves I (open_body x config)
  unfolding open_body
  open_body-Preserves config =
      search
        (
          parts,
          ask-Preserves keep,
          add_remotes-Preserves,
          open_dealer_of-Preserves,
          start_thread_of-Preserves,
        )
        depth 14

  -- A step keeps what is kept by its method.
  pub Step-keeps : {garbage : ℤ} {w w' : World} → Step x c garbage w w' → I w → I w'
  unfolding lookup write read remove range_get bulk_read lookup_addr bulk_write
      get_metabalancer_groups_of
  Step-keeps (looks_up key groups) h = (lookup_impl-Preserves keep key _).kept _ h
  Step-keeps (writes key content o) h = (write_impl-Preserves keep _).kept _ h
  Step-keeps (reads key o) h = (read_impl-Preserves keep key _ _ _ _ _ _ _).kept _ h
  Step-keeps (removes key groups) h = (remove_impl-Preserves keep key _).kept _ h
  Step-keeps (gets_range from to o) h = (range_get_impl-Preserves keep from to _ _ _ _ _ _).kept _ h
  Step-keeps (reads_bulk keys cflags groups) h = (bulk_read_impl-Preserves keep _ keys _).kept _ h
  Step-keeps (looks_up_addresses key groups) h = (lookup_addr_impl-Preserves keep key _).kept _ h
  Step-keeps (writes_bulk keys contents cflags groups policy) h =
      (bulk_write_impl-Preserves keep _ keys contents _ _).kept _ h
  Step-keeps (balances count size key) h = (get_metabalancer_groups-Preserves keep _).kept _ h
  Step-keeps (asks_about group) h = (get_metabalancer_group_info-Preserves keep group).kept _ h
  Step-keeps lists_symmetric h = (get_symmetric_groups-Preserves keep).kept _ h
  Step-keeps lists_bad h = (get_bad_groups-Preserves keep).kept _ h
  Step-keeps lists_all h = (get_all_groups-Preserves keep).kept _ h
  Step-keeps renews h = (collect_round-Preserves keep).kept _ h

module _ (x : External) (config : Config) (garbage : ℤ) (stamp : ℕ) where
  opened-IsSteady :
      (w : World) → stamp < word → w.trace ≡ [] → IsSteady x stamp (open_proxy x stamp config w).1
  unfolding open_proxy fresh_members
  opened-IsSteady w small new =
      (open_body-Preserves (IsSteady-IsKept x (settings_of config) stamp) config).kept
        (record w { cache = []; stamp = stamp })
        (record { informed = λ count. rw new (at_or-nil count); stamped = rw new (omega arith) })

  -- However public calls, whether they succeed or fail, and rounds of the thread follow one another
  -- once the constructor is through, the cache holds for every number of copies the groups that the
  -- newest answer with any groups offers, and the stamp is that of the beginning and the number of
  -- requests for weights, by 64 bits.
  pub Reach-IsSteady :
      (w : World) → stamp < word → Reach x config garbage stamp w → IsSteady x stamp w
  Reach-IsSteady w small (opened v new e) = rw (← ap (λ r. r.1) e) (opened-IsSteady v small new)
  Reach-IsSteady w small (later before s) =
      Step-keeps (IsSteady-IsKept x (settings_of config) stamp) s (Reach-IsSteady _ small before)

  -- However the calls and rounds before it went, a choice for a number of copies, from a metabase
  -- whose weights are positive with sums that fit 64 bits, is the group in whose share of the weights
  -- the random point lies, among those that the newest answer with any groups offers for that number;
  -- if it offers none, the choice fails as one among no groups does.
  pub Reach-choose :
      (w : World) (count : ℕ) (draw : ℕ → ℕ)
      → let gs = offered count [] (newest x w.trace) in
        stamp < word
        → Reach x config garbage stamp w
        → ((ds : List Event) (resp : MetabaseGroupWeightsResponse)
            → x.weights ds ≡ ok resp
            → All IsBalancedSize resp.info)
        → (choose draw count w.cache).0 ≡ pick (draw (weight_sum gs)) gs
  unfolding choose
  Reach-choose w count draw small reached balanced =
      let sized =
        offered-IsBalanced count (newest x w.trace) []
          (record { positive = tt; fits = omega arith }) (newest-IsBalanced x w.trace balanced) in
      rw ((Reach-IsSteady w small reached).informed count)
        (get-add_all draw (offered count [] (newest x w.trace)) sized.positive sized.fits)
