-- ===== src/System/Informed.antt =====
-- A cache with entries stays one (src/proxy.cpp, src/group_weights_cache.cpp): the test in front of a
-- choice holds for the choice, whatever comes in between.
use libelliptics_proxy.Base.{◌≡◌, refl, ap, ℤ, true, not, [], is_empty, Bool-cases, inl, inr}
use libelliptics_proxy.Result.{Result, ok, throw, undefined}
use libelliptics_proxy.OrderedMap.Laws.{is_empty-insert}
use libelliptics_proxy.Weights.{
  MetabaseGroupWeightsResponse, Cache, no_groups, collect, update, choose, initialized,
}
use libelliptics_proxy.Metabase.{
  collect_group_weights, update_cache, next_stamp, choose_cached, is_initialized, have_weights,
}
use libelliptics_proxy.Proxy.{External, Settings, World, hand_on}
use libelliptics_proxy.System.{Steps, done, further}
use libelliptics_proxy.System.Keeping.{IsKept}
use libelliptics_proxy.System.Steady.{Step-keeps}

abbrev pub IsInformed : World → Type 0
IsInformed w = initialized w.cache ≡ true

update-initialized :
    (cache : Cache) (resp : MetabaseGroupWeightsResponse)
    → initialized cache ≡ true
    → initialized (update cache resp).1 ≡ true
unfolding update initialized
update-initialized cache resp h = elim (Bool-cases (is_empty (collect [] resp.info))) [
  | inl e ↦ rw (update, e) h
  | inr e ↦ rw (update, e) (ap not e)
]

module _ (x : External) (c : Settings) where
  answered :
      (r : Result MetabaseGroupWeightsResponse) (w : World)
      → IsInformed w
      → IsInformed (hand_on (update_cache x c) (r, w)).1
  unfolding update_cache
  answered (ok resp) w h = update-initialized w.cache resp h
  answered (throw e) w h = h
  answered undefined w h = h

  IsInformed-IsKept : IsKept x c IsInformed
  unfolding collect_group_weights next_stamp choose_cached choose initialized
  IsInformed-IsKept = record {
    noted = λ w e quiet h. h;
    collects = record {
      kept = λ w h. elim (Bool-cases c.has_dealer) [
        | inl e ↦ rw e (answered (x.weights _) _ h)
        | inr e ↦ rw e h
      ];
    };
    chooses = λ count. record { kept = λ w h. rw (is_empty-insert count no_groups w.cache) refl };
  }

  -- Once the cache has an entry, it has one after any calls and rounds, whether they succeed or fail,
  -- and a call that wants a choice goes on to it without asking the metabase for weights first. The
  -- entry may be without groups, and the choice may still fail.
  pub Steps-initialized :
      (garbage : ℤ) (w w' : World)
      → initialized w.cache ≡ true
      → Steps x c garbage w w'
      → (initialized w'.cache ≡ true) × (have_weights x c w' ≡ (ok true, w'))
  unfolding have_weights is_initialized
  Steps-initialized garbage w w' h s = let k = stays w' s in (k, rw k refl)
    where
      stays : (v : World) → Steps x c garbage w v → IsInformed v
      stays v done = h
      stays v (further t st) = Step-keeps (IsInformed-IsKept) st (stays _ t)
