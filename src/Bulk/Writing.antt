-- ===== src/Bulk/Writing.antt =====
-- A bulk write of keys by identifier, from end to end (src/proxy.cpp, lines 850-936).
use libelliptics_proxy.Base.{ℕ, ◌≡◌, ℤ, true, List, [], ◌∷◌, Bytes, length}
use libelliptics_proxy.Result.{ok}
use libelliptics_proxy.OrderedMap.{Map, insert}
use libelliptics_proxy.Ids.{DnetId, Key, dnet_id_less}
use libelliptics_proxy.Ids.Order.{IsValidKey}
use libelliptics_proxy.Lookup.{LookupResult, parse_lookup}
use libelliptics_proxy.Proxy.{External, Settings, World, Event, IoAttr, M, ask, lift, pure, ◌>>=◌}
use libelliptics_proxy.Bulk.{bulk_attr, identified, sort_results, check_copies}

module _ (x : External) (garbage : ℤ) where
  -- Valid keys by identifier.
  abbrev pub IsNumbered : Key → Type 0
  IsNumbered k = (k.by_id ≡ true) × IsValidKey x.platform.id_size k

  -- The attributes of the objects.
  abbrev pub attrs_of : List Key → List Bytes → List IoAttr
  attrs_of [] contents = []
  attrs_of (k ∷ ks) [] = []
  attrs_of (k ∷ ks) (b ∷ bs) = bulk_attr x.platform.id_size k.id.id.id (length b) ∷ attrs_of ks bs

  -- The keys by their identifiers, of which the first of each counts.
  abbrev pub numbered : List Key → Map DnetId Key → Map DnetId Key
  numbered [] m = m
  numbered (k ∷ ks) m = numbered ks (insert (dnet_id_less x.platform.id_size) k.id.id k m)

  pub identified_lem : (k : Key) (w : World) → k.by_id ≡ true → identified x garbage k w ≡ (ok k, w)
  unfolding identified
  identified_lem k w h = simp h

  -- The end of the call, for sorted results, and all that follows the attributes.
  abbrev checked :
      ℕ → Map Key (List LookupResult) × Map Key (List ℤ) → M (Map Key (List LookupResult))
  checked need sorted = check_copies x garbage need sorted.1 >>= λ u. pure sorted.0

  abbrev finish :
      Settings → ℕ → List Bytes → List IoAttr × Map DnetId Key → M (Map Key (List LookupResult))
  finish c need contents r = ask x.text (Event.bulk_write r.0 contents) >>= λ lookup.
      lift (parse_lookup x.platform c.base_port c.eblob_style_path lookup) >>= λ result.
      checked need (sort_results x garbage result r.1 [] [])
