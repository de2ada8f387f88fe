-- ===== src/Calls/Ranges.antt =====
-- `range_get_impl` (src/proxy.cpp): which answer is returned, and what range is asked for.
use libelliptics_proxy.Base.{
  ℕ, ◌≡◌, refl, ◌∙◌, ◌⊎◌, inl, inr, ℤ, true, List, [], ◌∷◌, ◌++◌, Bytes, is_empty, if◌then◌else◌,
}
use libelliptics_proxy.Result.{Exception, ok, throw}
use libelliptics_proxy.Ids.{Key}
use libelliptics_proxy.Proxy.{External, IoAttr, World, Event, M, note, ask, pure, catching, bind_ok}
use libelliptics_proxy.Calls.{range_attr, read_range}

module _ (x : External) where
  -- The calls once some groups were asked.
  abbrev pub asked : IoAttr → List ℤ → List Event → List Event
  asked io [] es = es
  asked io (g ∷ gs) es = asked io gs (Event.read_data_range io g ∷ es)

  -- Each of the groups answers with nothing or throws.
  abbrev pub Fruitless : IoAttr → List ℤ → List Event → Type 0
  Fruitless io [] es = Unit {0}
  Fruitless io (g ∷ gs) es =
      ((x.texts (Event.read_data_range io g ∷ es) ≡ ok [])
        ⊎ ((e : Exception) × (x.texts (Event.read_data_range io g ∷ es) ≡ throw e)))
      × Fruitless io gs (Event.read_data_range io g ∷ es)

  abbrev quiet : IoAttr → ℤ → M (List Bytes)
  quiet io g = catching (λ e. true) (ask x.texts (Event.read_data_range io g)) (λ e. pure [])

  quiet_nothing :
      (io : IoAttr) (g : ℤ) (w : World)
      → (x.texts (Event.read_data_range io g ∷ w.trace) ≡ ok [])
        ⊎ ((e : Exception) × (x.texts (Event.read_data_range io g ∷ w.trace) ≡ throw e))
      → quiet io g w ≡ (ok [], note w (Event.read_data_range io g))
  quiet_nothing io g w (inl h) = rw h refl
  quiet_nothing io g w (inr (e, h)) = rw h refl

  -- The groups are asked in their order, and the first answer that is not empty is returned: the
  -- groups behind it are not asked, and those before it may have failed in any way.
  pub read_range_first :
      (io : IoAttr) (before : List ℤ) (g : ℤ) (after : List ℤ) (w : World) (t : Bytes)
      (ts : List Bytes)
      → Fruitless io before w.trace
      → x.texts (Event.read_data_range io g ∷ asked io before w.trace) ≡ ok (t ∷ ts)
      → read_range x io (before ++ (g ∷ after)) w
        ≡ (ok (t ∷ ts), record w { trace = asked io (before ++ (g ∷ [])) w.trace })
  unfolding read_range
  read_range_first io [] g after w t ts none h = rw h refl
  read_range_first io (b ∷ before) g after w t ts (none, more) h =
      bind_ok (quiet io b)
        (λ ret. if is_empty ret then read_range x io (before ++ (g ∷ after)) else pure ret) w
        (note w (Event.read_data_range io b)) [] (quiet_nothing io b w none)
      ∙ read_range_first io before g after (note w (Event.read_data_range io b)) t ts more h

  -- Where no group has an answer, the result is empty, after all were asked.
  pub read_range-Fruitless :
      (io : IoAttr) (gs : List ℤ) (w : World)
      → Fruitless io gs w.trace
      → read_range x io gs w ≡ (ok [], record w { trace = asked io gs w.trace })
  unfolding read_range
  read_range-Fruitless io [] w none = refl
  read_range-Fruitless io (b ∷ gs) w (none, more) =
      bind_ok (quiet io b) (λ ret. if is_empty ret then read_range x io gs else pure ret) w
        (note w (Event.read_data_range io b)) [] (quiet_nothing io b w none)
      ∙ read_range-Fruitless io gs (note w (Event.read_data_range io b)) more

  -- The upper end of the range is lost: two ranges that differ in it alone ask for the same, as long
  -- as both ends are identifiers.
  pub range_attr_ignores_to :
      (from to to' : Key) (ioflags limit_start limit_num : ℕ)
      → to.by_id ≡ true
      → to'.by_id ≡ true
      → range_attr x from to ioflags limit_start limit_num
        ≡ range_attr x from to' ioflags limit_start limit_num
  unfolding range_attr
  range_attr_ignores_to from to to' ioflags limit_start limit_num h k = rw (h, k) refl
