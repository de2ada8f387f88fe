-- ===== src/Public/Addresses.antt =====
-- `lookup_addr` (include/elliptics/proxy.hpp, src/proxy.cpp): whom it asks.
use libelliptics_proxy.Base.{◌≡◌, refl, ◌∙◌, ℤ, pos, List, [], ◌∷◌, Option, Bytes, if◌then◌else◌}
use libelliptics_proxy.Result.{ok}
use libelliptics_proxy.Ids.{Key}
use libelliptics_proxy.Config.{Remote}
use libelliptics_proxy.Groups.{get_groups}
use libelliptics_proxy.Proxy.{External, Settings, World, Event, note, bind_ok, pure}
use libelliptics_proxy.Calls.{read_remote, lookup_addresses, lookup_addr_impl}
use libelliptics_proxy.Public.{given, lookup_addr}

module _ (x : External) (c : Settings) where
  -- The question to one group.
  abbrev pub question : Key → ℤ → Event
  question key g =
      if key.by_id
      then Event.lookup_address_id key.id.id g
      else Event.lookup_address_name key.filename g

  abbrev pub questions : Key → List ℤ → List Event → List Event
  questions key [] es = es
  questions key (g ∷ gs) es = questions key gs (question key g ∷ es)

  -- Each of the questions, asked after those before it, has an answer that names a remote.
  abbrev pub Answered : Key → List ℤ → List Remote → List Event → Type 0
  Answered key [] [] es = Unit {0}
  Answered key [] (r ∷ rs) es = ⊥
  Answered key (g ∷ gs) [] es = ⊥
  Answered key (g ∷ gs) (r ∷ rs) es =
      ((t : Bytes) × (x.text (question key g ∷ es) ≡ ok t) × (read_remote x t ≡ ok r))
      × Answered key gs rs (question key g ∷ es)

  lookup_addresses_lem :
      (key : Key) (gs : List ℤ) (rs : List Remote) (w : World)
      → Answered key gs rs w.trace
      → lookup_addresses x key gs w ≡ (ok rs, record w { trace = questions key gs w.trace })
  unfolding lookup_addresses
  lookup_addresses_lem key [] [] w h = refl
  lookup_addresses_lem key [] (r ∷ rs) w h = absurd h
  lookup_addresses_lem key (g ∷ gs) [] w h = absurd h
  lookup_addresses_lem key (g ∷ gs) (r ∷ rs) w ((t, e, d), h) =
      rw (e, d)
        (bind_ok (lookup_addresses x key gs) (λ addrs. pure (r ∷ addrs)) (note w (question key g))
          (record w { trace = questions key gs (question key g ∷ w.trace) }) rs
          (lookup_addresses_lem key gs rs (note w (question key g)) h))

  -- Where groups are chosen and each question is answered by a text that names a remote, every group
  -- that the call names is asked in its turn, and the remotes are returned in that order; a call that
  -- names no groups asks none, whatever was chosen, and returns nothing.
  pub lookup_addr_lem :
      (key : Key) (groups : Option (List ℤ)) (named lgroups : List ℤ) (rs : List Remote)
      (w w1 : World)
      → given [] groups ≡ named
      → get_groups x c key named (pos 0) (note w Event.open_session) ≡ (ok lgroups, w1)
      → Answered key named rs w1.trace
      → lookup_addr x c key groups w ≡ (ok rs, record w1 { trace = questions key named w1.trace })
  unfolding lookup_addr lookup_addr_impl
  lookup_addr_lem key groups named lgroups rs w w1 same chosen answered = rw same (
      bind_ok (get_groups x c key named (pos 0)) (λ l. lookup_addresses x key named)
        (note w Event.open_session) w1 lgroups chosen
      ∙ lookup_addresses_lem key named rs w1 answered)
