-- ===== src/Calls/Lookups.antt =====
-- `lookup_impl` (src/proxy.cpp) from the call to the parsed answer.
use libelliptics_proxy.Base.{◌<◌, ◌≡◌, refl, ℤ, pos, List, ◌∷◌, if◌then◌else◌, word, length, All}
use libelliptics_proxy.Result.{ok}
use libelliptics_proxy.Ids.{Key}
use libelliptics_proxy.Lookup.{LookupResult}
use libelliptics_proxy.Lookup.Parse.{
  Entry, IsEntry, encode, read_entry, read_entries, parse_lookup-encode,
}
use libelliptics_proxy.Groups.{get_groups}
use libelliptics_proxy.Calls.{first_result, lookup_impl}
use libelliptics_proxy.Proxy.{External, Settings, World, Event, note}

module _ (x : External) (c : Settings) where
  -- The lookup that a key asks for.
  abbrev pub lookup_event : Key → Event
  lookup_event key = if key.by_id then Event.lookup_id key.id.id else Event.lookup_name key.filename

  -- The world once the node has been asked.
  abbrev pub looked_up : Key → List ℤ → World → World
  looked_up key lgroups w = note (note w (Event.set_groups lgroups)) (lookup_event key)

  -- Where the groups of a key are found, and the node answers with whole records, less than 2 ^ 64
  -- bytes, whose addresses resolve: a lookup asks the node once, in these groups, by the identifier
  -- or by the name, and returns what the first record says.
  pub lookup_impl_lem :
      (key : Key) (groups lgroups : List ℤ) (e : Entry) (es : List Entry) (r : LookupResult)
      (rs : List LookupResult) (w w1 : World)
      → get_groups x c key groups (pos 0) (note w Event.open_session) ≡ (ok lgroups, w1)
      → x.text (looked_up key lgroups w1).trace ≡ ok (encode (e ∷ es))
      → All (IsEntry x.platform c.base_port c.eblob_style_path) (e ∷ es)
      → length (encode (e ∷ es)) < word
      → read_entry x.platform c.base_port c.eblob_style_path e ≡ ok r
      → read_entries x.platform c.base_port c.eblob_style_path es ≡ ok rs
      → lookup_impl x c key groups w ≡ (ok r, looked_up key lgroups w1)
  unfolding lookup_impl first_result
  lookup_impl_lem key groups lgroups e es r rs w w1 found answered whole small first others =
      rw
        (
          found,
          answered,
          parse_lookup-encode x.platform c.base_port c.eblob_style_path (e ∷ es) whole small,
          first,
          others,
        )
        refl
