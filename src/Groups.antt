-- ===== src/Groups.antt =====
-- `EllipticsProxy::getGroups` of src/proxy.cpp: the groups that a call goes to.
pub mod Choice
pub mod Recorded
use libelliptics_proxy.Base.{
  ℕ, ℤ, pos, negsuc, Bool, true, false, not, ◌&&◌, List, [], ◌∷◌, ltb, ltb_ℤ, eqb_ℤ, length, take,
  is_empty, if◌then◌else◌,
}
use libelliptics_proxy.Result.{Exception, Result, ok, throw, undefined, no_groups}
use libelliptics_proxy.Ids.{Key}
use libelliptics_proxy.Metabase.{get_meta_info}
use libelliptics_proxy.Proxy.{
  External, Settings, World, Event, M, pure, lift, fail, catching, ◌>>=◌, ◌>>◌,
}

-- `erase(begin() + count, end())` where `count` asks for fewer; a negative `count` points in front of
-- the vector.
unfoldable pub truncate : ℤ → List ℤ → Result (List ℤ)
truncate count lgroups =
    if not (eqb_ℤ count (pos 0)) && ltb_ℤ count (pos (length lgroups))
    then elim count [ pos n ↦ ok (take n lgroups) | negsuc n ↦ undefined ]
    else ok lgroups

module _ (x : External) (c : Settings) where
  -- `!metabase_write_addr_.empty() && !metabase_read_addr_.empty()`.
  abbrev pub has_meta_info : Bool
  has_meta_info = not (is_empty c.metabase_write_addr) && not (is_empty c.metabase_read_addr)

  -- The groups of the key where the metabase has them, the configured ones otherwise.
  unfoldable pub stored_groups : Key → M (List ℤ)
  unfolding get_meta_info
  stored_groups key =
      if has_meta_info
      then catching (λ e. true) (get_meta_info x c key) (λ e. pure c.groups)
      else pure c.groups

  -- `std::random_shuffle` of all but the first.
  unfoldable pub shuffle_tail : List ℤ → M (List ℤ)
  shuffle_tail [] w = (ok [], w)
  shuffle_tail (g ∷ []) w = (ok (g ∷ []), w)
  shuffle_tail (g ∷ h ∷ gs) w =
      let trace = Event.random_shuffle ∷ w.trace in
      (ok (g ∷ x.shuffled trace (h ∷ gs)), record w { trace = trace })

  unfoldable pub non_empty : List ℤ → M (List ℤ)
  non_empty lgroups = if is_empty lgroups then fail no_groups else pure lgroups

  unfoldable pub candidates : Key → List ℤ → M (List ℤ)
  unfolding stored_groups shuffle_tail
  candidates key groups =
      if is_empty groups then (stored_groups key >>= shuffle_tail) else pure groups

  unfoldable pub get_groups : Key → List ℤ → ℤ → M (List ℤ)
  unfolding candidates truncate non_empty
  get_groups key groups count = do
    lgroups ← candidates key groups
    kept ← lift (truncate count lgroups)
    non_empty kept
