-- ===== src/Metabase.antt =====
-- The metabase side of src/proxy.cpp: the groups kept per key on an HTTP server (`uploadMetaInfo`,
-- `getMetaInfo`), the weights of the groups (`collectGroupWeights`, `get_metabalancer_groups_impl`)
-- and the lists of groups (`get_all_groups`).
pub mod MetaInfo
pub mod AllGroups
pub mod Balancer
pub mod Rounds
use libelliptics_proxy.Base.{
  ℕ, zero, suc, ◌+◌, ◌%◌, ◌^◌, ℤ, pos, Bool, true, false, ◌||◌, not, ◌&&◌, List, [], ◌∷◌, ◌++◌,
  Option, none, some, word, eqb_ℤ, Bytes, is_empty, if◌then◌else◌,
}
use libelliptics_proxy.Result.{
  Exception, Result, ok, throw, undefined, no_meta_info, no_dealer, bad_lexical_cast, dealer,
  is_std,
}
use libelliptics_proxy.Ids.{Key}
use libelliptics_proxy.Lookup.{Platform, colon}
use libelliptics_proxy.Sorting.{sort, unique}
use libelliptics_proxy.Weights.{MetabaseGroupWeightsResponse, update, choose, initialized}
use libelliptics_proxy.Proxy.{
  External, Settings, World, Event, GroupInfoResponse, M, pure, lift, raise, fail, ask, tell, note,
  codes, require, rethrow_logged, catching, ◌>>=◌, ◌>>◌,
}

-- The body that `uploadMetaInfo` sends: the groups, each but the first behind a colon.
unfoldable pub join_groups : (ℤ → Bytes) → Bytes → List ℤ → Bytes
join_groups print result [] = result
join_groups print result (g ∷ gs) =
    join_groups print
      ((if not (is_empty result) then result ++ (colon ∷ []) else result) ++ print g) gs

-- `boost::lexical_cast<int>` of every token.
unfoldable pub read_groups : (Bytes → Option ℤ) → List Bytes → Result (List ℤ)
read_groups read [] = ok []
read_groups read (t ∷ ts) =
    let rest = read_groups read ts in
    elim (read t) [
      | none ↦ throw bad_lexical_cast
      | some g ↦ elim rest [ ok gs ↦ ok (g ∷ gs) | throw e ↦ throw e | undefined ↦ undefined ]
    ]

-- The exceptions that the calls to the dealer name: only these are logged there.
abbrev pub is_dealer : Exception → Bool
is_dealer (dealer derived n) = true
is_dealer _ = false

-- What the handlers of the weights thread take: these three and `std::exception`.
abbrev pub is_caught : Exception → Bool
is_caught e = is_dealer e || is_std e

-- `std::map<int, …>`: the vectors in the order of the keys.
unfoldable pub concat : List (List ℤ) → List ℤ
concat [] = []
concat (g ∷ gs) = g ++ concat gs

unfoldable pub values : List (ℤ × List ℤ) → List (List ℤ)
values [] = []
values ((k, g) ∷ m) = g ∷ values m

module _ (x : External) (c : Settings) where
  unfoldable pub meta_url : Bytes → Key → Bytes
  meta_url addr key =
      (addr ++ codes "/groups-meta.")
      ++ (if key.by_id then x.dump_id key.id.id ++ codes ".id" else key.filename ++ codes ".file")

  unfoldable pub upload_meta_info : List ℤ → Key → M (Unit {0})
  unfolding meta_url join_groups
  upload_meta_info groups key = do
    (status, response) ← ask x.http (
        Event.http_post (meta_url c.metabase_write_addr key)
          (join_groups x.platform.print [] groups))
    require (eqb_ℤ status (pos 200)) no_meta_info

  unfoldable pub get_meta_info : Key → M (List ℤ)
  unfolding meta_url read_groups
  get_meta_info key = do
    (status, response) ← ask x.http (Event.http_get (meta_url c.metabase_read_addr key))
    require (eqb_ℤ status (pos 200)) no_meta_info
    lift (read_groups x.platform.read_int (x.tokenize colon response))

  -- `weight_cache_->update(resp)`.
  unfoldable pub update_cache : MetabaseGroupWeightsResponse → M Bool
  unfolding update
  update_cache resp w =
      let (changed, cache) = update w.cache resp in (ok changed, record w { cache = cache })

  unfoldable pub next_stamp : M ℕ
  next_stamp w = let stamp = (w.stamp + 1) % word in (ok stamp, record w { stamp = stamp })

  unfoldable pub collect_group_weights : M Bool
  unfolding update_cache next_stamp
  collect_group_weights = do
    require c.has_dealer no_dealer
    stamp ← next_stamp
    resp ← ask x.weights (Event.get_group_weights stamp)
    update_cache resp

  -- One round of `collectGroupWeightsLoop`: the exceptions that its handlers name are logged.
  unfoldable pub collect_round : M (Unit {0})
  unfolding collect_group_weights
  collect_round = do
    catching is_caught (do collect_group_weights; tell Event.log_info) λ e. tell Event.log_error
    tell (Event.sleep c.group_weights_update_period)

  -- The loop, for as many rounds as pass before the thread is interrupted.
  unfoldable pub collect_group_weights_loop : ℕ → M (Unit {0})
  unfolding collect_round
  collect_group_weights_loop zero = pure tt
  collect_group_weights_loop (suc rounds) = collect_round >> collect_group_weights_loop rounds

  -- `weight_cache_->choose(count)`, with the numbers that `random` gives at this point.
  unfoldable pub choose_cached : ℕ → M (List ℤ)
  choose_cached count w =
      let trace = Event.random ∷ w.trace in
      let (r, cache) = choose (x.drawn trace) count w.cache in
      (r, record w { trace = trace; cache = cache })

  unfoldable pub is_initialized : M Bool
  unfolding initialized
  is_initialized w = (ok (initialized w.cache), w)

  -- `initialized() || collectGroupWeights()`.
  unfoldable pub have_weights : M Bool
  unfolding is_initialized
  have_weights = do ready ← is_initialized; if ready then pure true else collect_group_weights

  unfoldable pub log_dealer {ℓ} : {A : Type ℓ} → M A → M A
  log_dealer m = catching is_dealer m λ e. do tell Event.log_error; raise e

  unfoldable pub choose_logged : ℕ → M (List ℤ)
  choose_logged count = do result ← choose_cached count; tell Event.log_info; pure result

  unfoldable pub get_metabalancer_groups : ℕ → M (List ℤ)
  unfolding log_dealer
  get_metabalancer_groups count =
      log_dealer do ready ← have_weights; if ready then choose_logged count else pure []

  unfoldable pub get_metabalancer_group_info : ℤ → M GroupInfoResponse
  unfolding log_dealer
  get_metabalancer_group_info group = do
    require c.has_dealer no_dealer
    log_dealer (ask x.info (Event.get_group_info group))

  -- `cocaine_dealer_->…`, which the two calls below write without a test of the pointer.
  unfoldable pub through_dealer {ℓ} : {A : Type ℓ} → M A → M A
  through_dealer m = if c.has_dealer then m else lift undefined

  unfoldable pub get_symmetric_groups : M (List (List ℤ))
  unfolding log_dealer through_dealer
  get_symmetric_groups = log_dealer (through_dealer (ask x.symmetric Event.get_symmetric_groups))

  unfoldable pub get_bad_groups : M (List (ℤ × List ℤ))
  unfolding log_dealer through_dealer
  get_bad_groups = log_dealer (through_dealer (ask x.bad Event.get_bad_groups))

  unfoldable pub get_all_groups : M (List ℤ)
  unfolding get_symmetric_groups get_bad_groups concat values sort unique
  get_all_groups = do
    r1 ← get_symmetric_groups
    r2 ← get_bad_groups
    pure (unique (sort (concat r1 ++ concat (values r2))))
