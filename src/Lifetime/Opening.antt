-- ===== src/Lifetime/Opening.antt =====
-- What the constructor of `EllipticsProxy` (src/proxy.cpp) calls, and what it leaves.
use libelliptics_proxy.Base.{
  ℕ, ◌≡◌, ◌≢◌, refl, ◌∙◌, ◌⊎◌, inl, inr, Bool, true, false, not, List, [], ◌∷◌, is_empty,
  Bool-cases, if◌then◌else◌,
}
use libelliptics_proxy.Result.{Exception, Result, ok, throw, runtime_error, empty_remotes, is_std}
use libelliptics_proxy.Config.{Remote, Config}
use libelliptics_proxy.Proxy.{External, World, Event, pure, note, bind_ok, ◌>>=◌}
use libelliptics_proxy.Lifetime.{
  settings_of, fresh_members, add_remotes, open_dealer_of, start_thread_of, open_body, open_proxy,
}

not_empty {ℓ} : {A : Type ℓ} (l : List A) → l ≢ [] → is_empty l ≡ false
not_empty [] h = absurd (h refl)
not_empty (a ∷ l) h = refl

module _ (x : External) where
  -- The remotes are added or refused by a standard exception.
  abbrev pub IsReachable : Type 0
  IsReachable =
      (r : Remote) (es : List Event)
      → let asked = Event.add_remote r.host r.port r.family ∷ es in
        (x.done asked ≡ ok tt) ⊎ ((e : Exception) × (x.done asked ≡ throw e) × (is_std e ≡ true))

  abbrev pub is_refused : Result (Unit {0}) → Bool
  is_refused (throw e) = true
  is_refused _ = false

  -- The calls for the remotes, with a line of the log behind each that was refused.
  abbrev pub remotes_tried : List Remote → List Event → List Event
  remotes_tried [] es = es
  remotes_tried (r ∷ rs) es =
      let asked = Event.add_remote r.host r.port r.family ∷ es in
      remotes_tried rs (if is_refused (x.done asked) then Event.log_error ∷ asked else asked)

  add_remotes_lem :
      (rs : List Remote) (w : World)
      → IsReachable
      → add_remotes x rs w ≡ (ok tt, record w { trace = remotes_tried rs w.trace })
  unfolding add_remotes
  add_remotes_lem [] w h = refl
  add_remotes_lem (r ∷ rs) w h = elim (h r w.trace) [
    | inl e ↦ rw e (add_remotes_lem rs (note w (Event.add_remote r.host r.port r.family)) h)
    | inr (ex, e, std) ↦
        rw (e, std)
          (add_remotes_lem rs
            (note (note w (Event.add_remote r.host r.port r.family)) Event.log_error) h)
  ]

  -- The calls of the constructor behind those for the remotes, and in front of them.
  abbrev pub dealer_opened : Config → List Event → List Event
  dealer_opened c es =
      if not (is_empty c.cocaine_config)
      then Event.start_thread ∷ Event.open_dealer c.cocaine_config ∷ es
      else es

  abbrev pub node_opened : Config → List Event → List Event
  node_opened c es =
      Event.open_node c.wait_timeout c.check_timeout c.flags c.ns
      ∷ Event.open_log c.log_path c.log_mask
      ∷ es

  -- The dealer and the thread that a configuration names can be started.
  abbrev pub IsDealing : Config → List Event → Type 0
  IsDealing c es =
      is_empty c.cocaine_config ≡ false
      → (x.done (Event.open_dealer c.cocaine_config ∷ es) ≡ ok tt)
        × (x.done (Event.start_thread ∷ Event.open_dealer c.cocaine_config ∷ es) ≡ ok tt)

  dealer_step :
      (c : Config) (w : World)
      → IsDealing c w.trace
      → (open_dealer_of x c >>= λ u.
            start_thread_of x (settings_of c) >>= λ v. pure (settings_of c))
          w
        ≡ (ok (settings_of c), record w { trace = dealer_opened c w.trace })
  unfolding open_dealer_of start_thread_of settings_of
  dealer_step c w h = elim (Bool-cases (is_empty c.cocaine_config)) [
    | inl none ↦ rw none refl
    | inr some ↦ rw (some, (h some).0, (h some).1) refl
  ]

  -- A configuration with remotes, a logger, a node, and, where the configuration names a dealer, a
  -- dealer and a thread that start: the proxy has the settings of the configuration, an empty cache
  -- and a stamp that nobody set; every remote is tried in its turn, and those that are refused by a
  -- standard exception are logged and do no harm.
  pub open_proxy_lem :
      (c : Config) (garbage : ℕ) (w : World)
      → let opened = remotes_tried c.remotes (node_opened c w.trace) in
        c.remotes ≢ []
        → x.done (Event.open_log c.log_path c.log_mask ∷ w.trace) ≡ ok tt
        → x.done (node_opened c w.trace) ≡ ok tt
        → IsReachable
        → IsDealing c opened
        → open_proxy x garbage c w ≡ (
          ok (settings_of c),
          record { trace = dealer_opened c opened; cache = []; stamp = garbage },
        )
  unfolding open_proxy open_body fresh_members
  open_proxy_lem c garbage w any log node remotes dealing =
      let w1 : World = record { trace = node_opened c w.trace; cache = []; stamp = garbage } in
      let w2 : World = record w1 { trace = remotes_tried c.remotes w1.trace } in
      rw (not_empty c.remotes any, log, node)
        (bind_ok (add_remotes x c.remotes)
            (λ u. open_dealer_of x c >>= λ v.
              start_thread_of x (settings_of c) >>= λ t. pure (settings_of c))
            w1 w2 tt (add_remotes_lem c.remotes w1 remotes)
          ∙ dealer_step c w2 dealing)

  -- Without remotes the constructor throws, before it has called for anything.
  pub open_proxy_empty :
      (c : Config) (garbage : ℕ) (w : World)
      → c.remotes ≡ []
      → open_proxy x garbage c w
        ≡ (throw (runtime_error empty_remotes), record w { cache = []; stamp = garbage })
  unfolding open_proxy open_body fresh_members
  open_proxy_empty c garbage w h = rw h refl
