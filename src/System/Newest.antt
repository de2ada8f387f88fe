-- ===== src/System/Newest.antt =====
-- The answers of the metabase in the record of all calls, of which the newest counts
-- (src/group_weights_cache.cpp, src/proxy.cpp).
use libelliptics_proxy.Base.{
  ℕ, suc, ◌+◌, ◌%◌, ◌≡◌, refl, ◌∙◌, List, [], ◌∷◌, word, is_empty, All, ltb, arith, Bool-cases, inl,
  inr, if◌then◌else◌,
}
use libelliptics_proxy.Result.{Result, ok, throw, undefined}
use libelliptics_proxy.OrderedMap.{at_or}
use libelliptics_proxy.OrderedMap.Laws.{at_or-insert}
use libelliptics_proxy.Weights.{
  SizedGroups, MetabaseGroupWeightsResponse, Cache, no_groups, add_all, update, choose,
}
use libelliptics_proxy.Weights.Caching.{
  offered, at_or-collect, is_empty-collect_nil, at_or-nil, IsBalancedSize,
}
use libelliptics_proxy.Metabase.{collect_group_weights, update_cache, next_stamp, choose_cached}
use libelliptics_proxy.Proxy.{External, Settings, World, Event, hand_on}
use libelliptics_proxy.System.Keeping.{is_quiet, IsKept, Preserves}

-- An answer that offers something takes the place of the one before.
abbrev pub taken : Result MetabaseGroupWeightsResponse → List SizedGroups → List SizedGroups
taken (ok resp) before = if is_empty resp.info then before else resp.info
taken _ before = before

-- How many times the weights were asked for.
abbrev pub requests : List Event → ℕ
requests [] = 0
requests (e ∷ es) = if is_quiet e then requests es else suc (requests es)

module _ (x : External) where
  -- What the newest answer offers that offers anything.
  abbrev pub newest : List Event → List SizedGroups
  newest [] = []
  newest (e ∷ es) = if is_quiet e then newest es else taken (x.weights (e ∷ es)) (newest es)

  -- The cache holds the groups of the newest answer, and the stamp counts the requests.
  pub record IsSteady (stamp : ℕ) (w : World) : Type 0 where
    pub informed :
        (count : ℕ)
        → at_or ltb no_groups count w.cache ≡ add_all no_groups (offered count [] (newest w.trace))
    pub stamped : w.stamp ≡ (stamp + requests w.trace) % word

  pub newest-IsBalanced :
      (es : List Event)
      → ((ds : List Event) (resp : MetabaseGroupWeightsResponse)
          → x.weights ds ≡ ok resp
          → All IsBalancedSize resp.info)
      → All IsBalancedSize (newest es)
  newest-IsBalanced [] h = tt
  newest-IsBalanced (e ∷ es) h = elim (Bool-cases (is_quiet e)) [
    | inl q ↦ rw q (newest-IsBalanced es h)
    | inr q ↦ rw q (either (newest-IsBalanced es h) (x.weights (e ∷ es)) refl)
  ]
    where
      either :
          All IsBalancedSize (newest es)
          → (r : Result MetabaseGroupWeightsResponse) → x.weights (e ∷ es) ≡ r
          → All IsBalancedSize (taken r (newest es))
      either k (ok resp) p = elim (Bool-cases (is_empty resp.info)) [
        | inl none ↦ rw none k
        | inr some ↦ rw some (h (e ∷ es) resp p)
      ]
      either k (throw ex) p = k
      either k undefined p = k

update-informed :
    (count : ℕ) (cache : Cache) (resp : MetabaseGroupWeightsResponse) (before : List SizedGroups)
    → at_or ltb no_groups count cache ≡ add_all no_groups (offered count [] before)
    → at_or ltb no_groups count (update cache resp).1
      ≡ add_all no_groups (offered count [] (taken (ok resp) before))
unfolding update
update-informed count cache resp before h = elim (Bool-cases (is_empty resp.info)) [
  | inl none ↦ rw (update, is_empty-collect_nil resp.info, none) h
  | inr some ↦
      rw (update, is_empty-collect_nil resp.info, some)
        (at_or-collect count resp.info [] [] (at_or-nil count))
]

module _ (x : External) (c : Settings) (stamp : ℕ) where
  collected :
      (w : World)
      → IsSteady x stamp w
      → let next = (w.stamp + 1) % word in
        let asked = Event.get_group_weights next ∷ w.trace in
        (r : Result MetabaseGroupWeightsResponse)
        → x.weights asked ≡ r
        → IsSteady x stamp
            (hand_on
              (update_cache x c)
              (r, record { trace = asked; cache = w.cache; stamp = next })).1
  unfolding update_cache
  collected w h (ok resp) p = record {
    informed =
        λ count. rw p (update-informed count w.cache resp (newest x w.trace) (h.informed count));
    stamped = rw h.stamped (omega arith);
  }
  collected w h (throw e) p = record {
    informed = λ count. rw p (h.informed count);
    stamped = rw h.stamped (omega arith);
  }
  collected w h undefined p = record {
    informed = λ count. rw p (h.informed count);
    stamped = rw h.stamped (omega arith);
  }

  collect_group_weights-Preserves : Preserves (IsSteady x stamp) (collect_group_weights x c)
  unfolding collect_group_weights next_stamp
  collect_group_weights-Preserves = record {
    kept = λ w h. elim (Bool-cases c.has_dealer) [
      | inl e ↦ rw e (collected w h (x.weights _) refl)
      | inr e ↦ rw e h
    ];
  }

  pub IsSteady-IsKept : IsKept x c (IsSteady x stamp)
  unfolding choose_cached choose
  IsSteady-IsKept = record {
    noted = λ w e quiet h. record {
      informed = λ count. rw quiet (h.informed count);
      stamped = rw quiet h.stamped;
    };
    collects = collect_group_weights-Preserves;
    chooses = λ count. record {
      kept = λ w h. record {
        informed = λ j. at_or-insert j count no_groups w.cache ∙ h.informed j;
        stamped = h.stamped;
      };
    };
  }
