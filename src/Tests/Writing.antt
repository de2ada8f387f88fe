-- ===== src/Tests/Writing.antt =====
-- The theorems on `write_impl` (src/proxy.cpp) at a small node.
use libelliptics_proxy.Base.{
  ◌-◌, to_size, int_of_pattern, ◌≡◌, refl, ℤ, pos, negsuc, true, false, List, [], ◌∷◌, arith,
}
use libelliptics_proxy.Result.{ok, throw, runtime_error, not_enough_copies}
use libelliptics_proxy.Sorting.{count}
use libelliptics_proxy.Upload.{WriteHelper, upload_is_good}
use libelliptics_proxy.Write.{content_of, first_groups, clean_up, write_impl, is_chunked, copies}
use libelliptics_proxy.Write.Rounds.{IsObliging}
use libelliptics_proxy.Write.Uploaded.{IsCut, IsBounded}
use libelliptics_proxy.Write.Session.{Achieves, helper_of, write_impl_chunked}
use libelliptics_proxy.Write.Whole.{before_write, after_write, write_impl_whole}
use libelliptics_proxy.Write.CleanUp.{clean_up_incomplete}
use libelliptics_proxy.Write.Failures.{given_up, write_impl_few_copies}
use libelliptics_proxy.Proxy.{Settings, Event, note}
use libelliptics_proxy.Tests.Fixtures.{
  obedient_node, settings, start, dnet_id, one_record, content, request, one_result,
  one_record-parse_lookup,
}

-- A chunked upload of five bytes by twos.
one_is_good : upload_is_good (to_size (negsuc 0)) (to_size (pos 2)) 1 ≡ true
unfolding upload_is_good to_size
one_is_good = refl

-- The same content in one piece, where one copy is enough.
abbrev unchunked : Settings
unchunked = record settings { metabase_read_addr = []; chunk_size = pos 0 }

unchunked-is_chunked : is_chunked obedient_node unchunked request content ≡ false
unfolding is_chunked
unchunked-is_chunked = refl

unchunked-good :
    upload_is_good
      (to_size (negsuc 0))
      (to_size (int_of_pattern (copies obedient_node unchunked request)))
      1
    ≡ true
unfolding upload_is_good to_size copies
unchunked-good = refl

write_impl_whole_example : write_impl obedient_node unchunked request start ≡ (
  ok (one_result ∷ []),
  record start { trace = after_write obedient_node unchunked request dnet_id (one_result ∷ []) [] },
)
unfolding content_of
write_impl_whole_example =
    write_impl_whole obedient_node unchunked request (pos 7) (pos 8 ∷ []) (pos 1) dnet_id one_record
      (one_result ∷ []) start refl refl refl refl unchunked-is_chunked refl refl refl refl
      one_record-parse_lookup unchunked-good (λ es. refl)

-- Two copies are asked for, and one is written.
abbrev demanding : Settings
demanding = record unchunked { success_copies_num = negsuc 2 }

one_of_two :
    upload_is_good
      (to_size demanding.success_copies_num)
      (to_size (int_of_pattern (copies obedient_node demanding request)))
      1
    ≡ false
unfolding upload_is_good to_size copies
one_of_two = refl

demanding-is_chunked : is_chunked obedient_node demanding request content ≡ false
unfolding is_chunked
demanding-is_chunked = refl

write_impl_few_copies_example : write_impl obedient_node demanding request start ≡ (
  throw (runtime_error not_enough_copies),
  record start { trace = given_up obedient_node demanding request dnet_id [] },
)
unfolding content_of
write_impl_few_copies_example =
    write_impl_few_copies obedient_node demanding request (pos 7) (pos 8 ∷ []) (pos 1) dnet_id
      one_record (one_result ∷ []) start refl refl refl demanding-is_chunked refl refl refl refl
      one_record-parse_lookup one_of_two (λ es. refl)

-- A chunked upload that reached one of three groups.
abbrev helper : WriteHelper
helper = record {
  success_copies_num = negsuc 0;
  replication_count = pos 2;
  ret = [];
  desired_groups = pos 7 ∷ pos 8 ∷ [];
  upload_groups = [];
}

abbrev partial : WriteHelper
partial = record helper { desired_groups = pos 3 ∷ pos 1 ∷ pos 7 ∷ []; upload_groups = pos 7 ∷ [] }

clean_up_incomplete_example :
    (gs : List ℤ) × (h : WriteHelper) × (clean_up obedient_node settings request true partial start
      ≡ (ok h, note (note start (Event.set_groups gs)) (Event.remove_name (0x61 ∷ []))))
    × ((g : ℤ) → count g gs ≡ count g partial.desired_groups - count g partial.upload_groups)
    × (h.ret ≡ [])
    × ((g : ℤ) → count g h.upload_groups ≡ count g partial.upload_groups)
clean_up_incomplete_example =
    clean_up_incomplete obedient_node settings request partial start (omega arith) (omega arith)
      (λ es. refl)

-- The same content in chunks of two bytes: the group 8 is missed.
abbrev local : Settings
local = record settings { metabase_read_addr = [] }

local_chunks : to_size local.chunk_size ≡ 2
unfolding to_size
local_chunks = refl

local-good :
    upload_is_good
      (to_size local.success_copies_num)
      (to_size (int_of_pattern (copies obedient_node local request)))
      1
    ≡ true
unfolding upload_is_good to_size copies
local-good = refl

abbrev obliging :
    IsObliging obedient_node local local.success_copies_num
      (int_of_pattern (copies obedient_node local request))
obliging = record {
  answer = λ es. one_record;
  results = λ es. one_result ∷ [];
  answers = λ es. refl;
  parses = λ es. one_record-parse_lookup;
  good = λ es. local-good;
}

local-is_chunked :
    is_chunked obedient_node local request (content_of request.embeds request.content) ≡ true
unfolding is_chunked content_of to_size
local-is_chunked = refl

local-IsCut :
    IsCut obedient_node local 2 local_chunks local.success_copies_num
      (int_of_pattern (copies obedient_node local request))
      obliging
      request.offset
      (content_of request.embeds request.content)
unfolding content_of
local-IsCut = record { some_size = omega arith; first_chunk = omega arith; no_wrap = omega arith }

local-IsBounded :
    IsBounded obedient_node local 2 local_chunks local.success_copies_num
      (int_of_pattern (copies obedient_node local request))
      obliging
      (first_groups (copies obedient_node local request) request.groups)
unfolding first_groups copies
local-IsBounded = record { fewer = λ es. omega arith; small = omega arith }

write_impl_chunked_example :
    Achieves obedient_node local 2 local_chunks local.success_copies_num
      (int_of_pattern (copies obedient_node local request))
      obliging
      request
      (content_of request.embeds request.content)
      (helper_of obedient_node local request 2 local_chunks obliging)
      (before_write obedient_node local request [])
      start
      (write_impl obedient_node local request start)
write_impl_chunked_example =
    write_impl_chunked obedient_node local request 2 local_chunks obliging (pos 7) (pos 8 ∷ [])
      (pos 1) dnet_id start refl refl refl refl local-is_chunked refl refl refl local-IsCut
      local-IsBounded (λ es. refl)
