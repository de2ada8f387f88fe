-- ===== src/Tests/Recording.antt =====
-- The theorem on recorded groups (src/proxy.cpp) at a server that stores what is posted.
use mathlib.Core.List.{Perm}
use mathlib.Core.List.Perm
use libelliptics_proxy.Base.{◌≡◌, refl, ap, ℤ, pos, List, [], ◌∷◌, Option, none, some, Bytes}
use libelliptics_proxy.Result.{Result, ok}
use libelliptics_proxy.Metabase.{meta_url, upload_meta_info}
use libelliptics_proxy.Groups.{get_groups}
use libelliptics_proxy.Groups.Recorded.{last_posted, IsStoring, get_groups-upload_meta_info}
use libelliptics_proxy.Proxy.{External, World, Event, note}
use libelliptics_proxy.Tests.Fixtures.{
  node, settings, start, key, tokenize-IsTokenizer, print-IsPrinter,
}

abbrev answer_of : Option Bytes → Result (ℤ × Bytes)
answer_of none = ok (pos 404, [])
answer_of (some body) = ok (pos 200, body)

-- What was posted at the address that begins with `w` is read at the one that begins with `r`.
abbrev store : List Event → Result (ℤ × Bytes)
store (Event.http_get (a ∷ path) ∷ es) = answer_of (last_posted (0x77 ∷ path) es)
store _ = ok (pos 200, [])

abbrev storing_node : External
storing_node = record node { http = store }

storing_node-IsStoring : IsStoring storing_node settings
unfolding meta_url
storing_node-IsStoring k es body h = ap answer_of h

-- The groups 5, 6 and 4 are recorded, and a session is opened before they are asked for.
abbrev recorded : World
recorded =
    note (upload_meta_info storing_node settings (pos 5 ∷ pos 6 ∷ pos 4 ∷ []) key start).1
      Event.open_session

get_groups-upload_meta_info_example :
    (tail : List ℤ) × (w' : World) × (get_groups storing_node settings key [] (pos 0) recorded
      ≡ (ok (pos 5 ∷ tail), w'))
    × Perm tail (pos 6 ∷ pos 4 ∷ [])
get_groups-upload_meta_info_example =
    get_groups-upload_meta_info storing_node settings key (pos 5) (pos 6 ∷ pos 4 ∷ [])
      (Event.open_session ∷ []) start recorded refl tokenize-IsTokenizer print-IsPrinter
      storing_node-IsStoring (λ es l. Perm.refl l) refl refl
