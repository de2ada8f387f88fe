-- ===== src/System/Methods.antt =====
-- Every method of the proxy (src/proxy.cpp) but the writes preserves a predicate that the calls for
-- the weights preserve.
use libelliptics_proxy.Base.{ℕ, ℤ, true, List, [], ◌∷◌, refl}
use libelliptics_proxy.Ids.{Key}
use libelliptics_proxy.Metabase.{
  upload_meta_info, get_meta_info, collect_round, is_initialized, have_weights, choose_logged,
  log_dealer, get_metabalancer_groups, get_metabalancer_group_info, through_dealer,
  get_symmetric_groups, get_bad_groups, get_all_groups, is_caught,
}
use libelliptics_proxy.Groups.{stored_groups, shuffle_tail, candidates, non_empty, get_groups}
use libelliptics_proxy.Proxy.{External, Settings, World, Event, M}
use libelliptics_proxy.System.Keeping.{
  Preserves, IsKept, tell-Preserves, ask-Preserves, pure-Preserves, bind-Preserves,
  catching-Preserves, if-Preserves, parts,
}

module _ {x : External} {c : Settings} {I : World → Type 0} (keep : IsKept x c I) where
  pub upload_meta_info-Preserves :
      (groups : List ℤ) (key : Key) → Preserves I (upload_meta_info x c groups key)
  unfolding upload_meta_info
  upload_meta_info-Preserves groups key = search (parts, ask-Preserves keep) depth 8

  get_meta_info-Preserves : (key : Key) → Preserves I (get_meta_info x c key)
  unfolding get_meta_info
  get_meta_info-Preserves key = search (parts, ask-Preserves keep) depth 8

  stored_groups-Preserves : (key : Key) → Preserves I (stored_groups x c key)
  unfolding stored_groups
  stored_groups-Preserves key = search (parts, catching-Preserves, get_meta_info-Preserves) depth 8

  shuffle_tail-Preserves : (gs : List ℤ) → Preserves I (shuffle_tail x c gs)
  unfolding shuffle_tail
  shuffle_tail-Preserves [] = pure-Preserves []
  shuffle_tail-Preserves (g ∷ []) = pure-Preserves (g ∷ [])
  shuffle_tail-Preserves (g ∷ h ∷ gs) = record {
    kept = λ w i. keep.noted w Event.random_shuffle refl i;
  }

  pub get_groups-Preserves :
      (key : Key) (groups : List ℤ) (count : ℤ) → Preserves I (get_groups x c key groups count)
  unfolding get_groups candidates non_empty
  get_groups-Preserves key groups count =
      search (parts, stored_groups-Preserves, shuffle_tail-Preserves) depth 9

  -- The calls of the metabase.
  is_initialized-Preserves : Preserves I (is_initialized x c)
  unfolding is_initialized
  is_initialized-Preserves = record { kept = λ w h. h }

  log_dealer-Preserves : {A : Type 0} {m : M A} → Preserves I m → Preserves I (log_dealer x c m)
  unfolding log_dealer
  log_dealer-Preserves h = search (parts, catching-Preserves, tell-Preserves keep) depth 9

  through_dealer-Preserves :
      {A : Type 0} {m : M A} → Preserves I m → Preserves I (through_dealer x c m)
  unfolding through_dealer
  through_dealer-Preserves h = search parts

  pub collect_round-Preserves : Preserves I (collect_round x c)
  unfolding collect_round
  collect_round-Preserves =
      bind-Preserves
        (catching-Preserves is_caught
          (bind-Preserves keep.collects λ u. tell-Preserves keep Event.log_info refl)
          λ e. tell-Preserves keep Event.log_error refl)
        λ u. tell-Preserves keep _ refl

  have_weights-Preserves : Preserves I (have_weights x c)
  unfolding have_weights
  have_weights-Preserves =
      bind-Preserves is_initialized-Preserves
        λ ready. if-Preserves ready (pure-Preserves true) keep.collects

  choose_logged-Preserves : (count : ℕ) → Preserves I (choose_logged x c count)
  unfolding choose_logged
  choose_logged-Preserves count = search (parts, tell-Preserves keep, keep.chooses) depth 9

  pub get_metabalancer_groups-Preserves :
      (count : ℕ) → Preserves I (get_metabalancer_groups x c count)
  unfolding get_metabalancer_groups
  get_metabalancer_groups-Preserves count =
      search (parts, log_dealer-Preserves, have_weights-Preserves, choose_logged-Preserves) depth 9

  pub get_metabalancer_group_info-Preserves :
      (group : ℤ) → Preserves I (get_metabalancer_group_info x c group)
  unfolding get_metabalancer_group_info
  get_metabalancer_group_info-Preserves group =
      search (parts, log_dealer-Preserves, ask-Preserves keep) depth 9

  pub get_symmetric_groups-Preserves : Preserves I (get_symmetric_groups x c)
  unfolding get_symmetric_groups
  get_symmetric_groups-Preserves =
      search (log_dealer-Preserves, through_dealer-Preserves, ask-Preserves keep) depth 9

  pub get_bad_groups-Preserves : Preserves I (get_bad_groups x c)
  unfolding get_bad_groups
  get_bad_groups-Preserves =
      search (log_dealer-Preserves, through_dealer-Preserves, ask-Preserves keep) depth 9

  pub get_all_groups-Preserves : Preserves I (get_all_groups x c)
  unfolding get_all_groups
  get_all_groups-Preserves =
      search (parts, get_symmetric_groups-Preserves, get_bad_groups-Preserves) depth 9
