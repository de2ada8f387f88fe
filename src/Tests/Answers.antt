-- ===== src/Tests/Answers.antt =====
-- The theorems on answers, paths, policies and records at concrete inputs (src/proxy.cpp).
use libelliptics_proxy.Base.{
  ℕ, ◌≡◌, refl, ◌↔◌, inl, inr, ◌-◌, ◌≤◌, ℤ, pos, negsuc, true, false, List, [], ◌∷◌, ◌++◌, arith,
  to_size, Bytes, Bool-cases, ltb, length, ◌+◌, ◌<◌, take, drop, word,
}
use libelliptics_proxy.Result.{ok, undefined}
use libelliptics_proxy.Sorting.{Sorted, count}
use libelliptics_proxy.Lookup.{parse_one, parse_lookup, Header, LookupResult, make_result}
use libelliptics_proxy.Lookup.Parse.{Entry, encode, read_entry, read_entries, parse_lookup_overrun}
use libelliptics_proxy.Upload.{
  uploads_need, upload_is_good, copies_quorum, WriteHelper, get_incomplete_groups,
}
use libelliptics_proxy.Upload.Policy.{upload_is_good-iff-uploads_need}
use libelliptics_proxy.Upload.Incomplete.{get_incomplete_groups_lem}
use libelliptics_proxy.Read.{read_embedded, embed_loop, convert_embedded, embed_size}
use libelliptics_proxy.Read.Fuel.{Fits, embed_loop_enough}
use libelliptics_proxy.Read.Embeds.{Object, pack, read_embedded-pack}
use libelliptics_proxy.Groups.{get_groups}
use libelliptics_proxy.Calls.{lookup_impl}
use libelliptics_proxy.Calls.Lookups.{looked_up, lookup_impl_lem}
use libelliptics_proxy.Proxy.{External, Settings, Event, note}
use libelliptics_proxy.Tests.Fixtures.{
  platform, read_header, node, nth, dnet_id, settings, start, key, settings, start, key,
}

-- Answers of a lookup: two records, of which the second is padded.
abbrev named_entry : Entry
named_entry = record { head = 9 ∷ 1 ∷ 2 ∷ 7 ∷ 2 ∷ []; name = 0x61 ∷ []; pad = [] }

abbrev padded_entry : Entry
padded_entry = record { head = 9 ∷ 1 ∷ 2 ∷ 8 ∷ 4 ∷ []; name = 0x62 ∷ []; pad = 0 ∷ 0 ∷ [] }

abbrev pathless : Settings
pathless = record settings { eblob_style_path = false }

abbrev informed : External
informed = record node { text = λ es. ok (encode (named_entry ∷ padded_entry ∷ [])) }

abbrev first_found : LookupResult
first_found = record { hostname = 9 ∷ []; port = 1025; path = []; group = pos 7; id = dnet_id }

abbrev second_found : LookupResult
second_found = record first_found { group = pos 8; id = record dnet_id { group_id = pos 8 } }

in_two_groups :
    get_groups informed pathless key (pos 7 ∷ pos 8 ∷ []) (pos 0) (note start Event.open_session)
    ≡ (ok (pos 7 ∷ pos 8 ∷ []), note start Event.open_session)
unfolding get_groups
in_two_groups = refl

entries_read :
    (read_entry platform (pos 1024) false named_entry ≡ ok first_found)
    × (read_entries platform (pos 1024) false (padded_entry ∷ []) ≡ ok (second_found ∷ []))
unfolding make_result
entries_read = (refl, refl)

lookup_impl_lem_example : lookup_impl informed pathless key (pos 7 ∷ pos 8 ∷ []) start ≡ (
  ok first_found,
  looked_up informed pathless key (pos 7 ∷ pos 8 ∷ []) (note start Event.open_session),
)
lookup_impl_lem_example =
    lookup_impl_lem informed pathless key (pos 7 ∷ pos 8 ∷ []) (pos 7 ∷ pos 8 ∷ []) named_entry
      (padded_entry ∷ []) first_found (second_found ∷ []) start (note start Event.open_session)
      in_two_groups refl
      (
        record { whole = refl; counted = refl; no_nul = (refl, tt) },
        (record { whole = refl; counted = refl; no_nul = (refl, tt) }, tt),
      )
      (omega arith) entries_read.0 entries_read.1

-- A record that claims a path of 200 bytes.
abbrev short_answer : Bytes
short_answer = 9 ∷ 1 ∷ 2 ∷ 7 ∷ 200 ∷ 0x61 ∷ 0 ∷ []

abbrev short_result : LookupResult
short_result = record { hostname = 9 ∷ []; port = 1025; path = []; group = pos 7; id = dnet_id }

short_answer-parse_one : parse_one platform (pos 1024) false short_answer ≡ ok short_result
unfolding parse_one
short_answer-parse_one = refl

parse_lookup_overrun_example : parse_lookup platform (pos 1024) false short_answer ≡ undefined
parse_lookup_overrun_example =
    parse_lookup_overrun platform (pos 1024) false short_answer short_result (omega arith)
      (omega arith) (omega arith) (omega arith) short_answer-parse_one

-- The policies.
upload_is_good-iff-uploads_need_example :
    (upload_is_good (to_size copies_quorum) 3 2 ≡ true)
    ↔ (uploads_need (to_size copies_quorum) 3 ≤ 2)
upload_is_good-iff-uploads_need_example =
    upload_is_good-iff-uploads_need copies_quorum 3 2 (inr (inl refl)) (omega arith)

-- Of three groups two were written.
abbrev helper : WriteHelper
helper = record {
  success_copies_num = negsuc 0;
  replication_count = pos 3;
  ret = [];
  desired_groups = pos 3 ∷ pos 1 ∷ pos 2 ∷ [];
  upload_groups = pos 2 ∷ pos 1 ∷ [];
}

get_incomplete_groups_lem_example :
    (gs : List ℤ) × (h' : WriteHelper) × (get_incomplete_groups helper ≡ ok (gs, h'))
    × ((g : ℤ) → count g gs ≡ count g helper.desired_groups - count g helper.upload_groups)
    × ((g : ℤ) → count g h'.upload_groups ≡ count g helper.upload_groups)
    × Sorted h'.upload_groups
    × (h'.ret ≡ helper.ret)
get_incomplete_groups_lem_example = get_incomplete_groups_lem helper (omega arith) (omega arith)

-- Paths.
abbrev info : Header
info = read_header (9 ∷ 1 ∷ 2 ∷ 7 ∷ 2 ∷ [])

-- Embedded objects: one of type 2 with two bytes, and the data.
abbrev header : ℕ → ℕ → Bytes
header size type = size ∷ type ∷ 0 ∷ 0 ∷ 0 ∷ 0 ∷ 0 ∷ 0 ∷ 0 ∷ 0 ∷ 0 ∷ 0 ∷ 0 ∷ 0 ∷ 0 ∷ 0 ∷ []

abbrev stamp : Object
stamp = record { head = header 2 2; body = 5 ∷ 6 ∷ [] }

read_embedded-pack_example :
    read_embedded node (pack (stamp ∷ []) (header 3 1 ++ (7 ∷ 8 ∷ 9 ∷ []))) ≡ ok (7 ∷ 8 ∷ 9 ∷ [])
read_embedded-pack_example =
    read_embedded-pack node (stamp ∷ []) (header 3 1) (7 ∷ 8 ∷ 9 ∷ [])
      ((record { whole = refl; sized = refl }, λ e. absurd (omega arith)), tt) refl refl
      (omega arith)

-- Objects of two bytes each.
abbrev pair_node : External
pair_node = record node { read_embed = λ bs. record { size = 2; type = nth 1 bs; flags = 0 } }

abbrev pairs_text : Bytes
pairs_text = header 2 2 ++ (5 ∷ 6 ∷ (header 2 1 ++ (7 ∷ 8 ∷ [])))

pair_node-Fits : Fits pair_node pairs_text
unfolding convert_embedded
pair_node-Fits offset e h = elim (Bool-cases (ltb (length pairs_text) (offset + embed_size))) [
  | inl c ↦ absurd (short (simp c at h))
  | inr c ↦ two (simp c at h)
]
  where
    short : undefined ≡ ok e → ⊥
    short q = cc

    two :
        ok (pair_node.read_embed (take embed_size (drop offset pairs_text))) ≡ ok e
        → e.size + embed_size < word
    two q =
        let same : pair_node.read_embed (take embed_size (drop offset pairs_text)) ≡ e = cc in
        rw (← same) (omega arith)

embed_loop_enough_example :
    embed_loop pair_node undefined 37 pairs_text 36 0
    ≡ embed_loop pair_node (ok 7) 1000 pairs_text 36 0
embed_loop_enough_example =
    embed_loop_enough pair_node undefined (ok 7) 37 1000 pairs_text 36 0 pair_node-Fits
      (omega arith) (omega arith) (omega arith)

-- Records of a bulk read.
