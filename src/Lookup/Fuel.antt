-- ===== src/Lookup/Fuel.antt =====
-- The loop of `parse_lookup` (src/proxy.cpp, lines 308-345) comes to its end.
use libelliptics_proxy.Base.{ℕ, ◌+◌, ◌<◌, ℤ, Bool, List, ◌∷◌, Bytes, drop, take, word}
use libelliptics_proxy.Result.{Result, ok, ◌>>=◌}
use libelliptics_proxy.Lookup.{Platform, LookupResult, min_size, parse_one}

module _ (p : Platform) (base_port : ℤ) (eblob_style_path : Bool) where
  -- One round, by what the rest of the loop gives.
  abbrev round : Bytes → Result (List LookupResult) → Result (List LookupResult)
  round bytes rest =
      parse_one p base_port eblob_style_path bytes >>= λ result. rest >>= λ ret. ok (result ∷ ret)

  -- No record claims a length that wraps around with the structures, wherever it lies.
  abbrev pub IsClaimed : Bytes → Type 0
  IsClaimed bytes = (k : ℕ) → min_size p + (p.header (take (min_size p) (drop k bytes))).flen < word
