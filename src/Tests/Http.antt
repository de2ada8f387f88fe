-- ===== src/Tests/Http.antt =====
-- The theorems on src/resource.hpp and src/curl_wrapper.hpp at a libcurl that grants all calls, and a
-- server that stores the bodies.
use libelliptics_proxy.Base.{
  ltb, if◌then◌else◌, suc, ◌+◌, ◌≡◌, ◌≢◌, refl, ap, ℤ, pos, true, false, List, [], ◌∷◌, map, ◌++◌,
  Option, none, some, Bytes, length, arith, All, word, ◌*◌, ◌<◌,
}
use libelliptics_proxy.Result.{ok, throw, runtime_error, no_curl_header}
use libelliptics_proxy.Text.{c_string}
use libelliptics_proxy.Metabase.{meta_url, upload_meta_info, get_meta_info}
use libelliptics_proxy.Proxy.{External, World, Event, codes, note}
use libelliptics_proxy.Resource.{
  Ptr, null, Use, construct, copy, assign, reset_at, release_at, destruct, no_objects, use_all,
  Objects,
}
use libelliptics_proxy.Resource.Ownership.{count, given_all, use_all-no_objects}
use libelliptics_proxy.Curl.{
  Call, easy_init, slist_append, easy_perform, Piece, Libcurl, Client, ◌>>◌,
}
use libelliptics_proxy.Curl.Methods.{
  Method, call_header, call_add_param, call_perform_post_form, run_all, with_client, perform,
  add_line, destroy,
}
use libelliptics_proxy.Curl.Ledger.{Settled, audit}
use libelliptics_proxy.Curl.Closing.{with_client-Settled}
use libelliptics_proxy.Curl.Lost.{add_line_refused}
use libelliptics_proxy.Curl.Requests.{http_of, calls_of}
use libelliptics_proxy.Curl.Sending.{Sent, Serves, requests, content}
use libelliptics_proxy.Curl.Settings.{
  Setting, to_url, to_timeout, with_header, method_of, applied_all, plain_request, perform_lem,
}
use libelliptics_proxy.Curl.Answers.{get_sent, post_sent, sent}
use libelliptics_proxy.Curl.Refinement.{http_of-sent}
use libelliptics_proxy.Curl.Recorded.{last_body, HandsOut, get_meta_info-through_curl}
use libelliptics_proxy.Tests.Fixtures.{
  node, settings, start, key, tokenize-IsTokenizer, print-IsPrinter,
}

-- Three pointers: one is assigned over another, one is replaced, and one is released.
abbrev uses : List Use
uses =
    construct 7
    ∷ construct 8
    ∷ construct 9
    ∷ assign 0 1
    ∷ copy 0
    ∷ reset_at 2 10
    ∷ release_at 3
    ∷ destruct 2
    ∷ []

abbrev left : Objects
left = record { cells = 0 ∷ 0 ∷ 0 ∷ 0 ∷ []; destroyed = 10 ∷ 9 ∷ 7 ∷ []; released = 8 ∷ [] }

uses-left : use_all uses no_objects ≡ some left
unfolding use_all
uses-left = refl

abbrev kept_one : Ptr
kept_one = 9

kept_one_held : kept_one ≢ null
kept_one_held = λ e. omega (arith, e)

use_all-no_objects_example :
    count 9 left.cells + count 9 left.destroyed + count 9 left.released ≡ count 9 (given_all uses)
use_all-no_objects_example = use_all-no_objects kept_one kept_one_held uses left uses-left

abbrev pointer_of : List Call → Ptr
pointer_of es = suc (length es)

abbrev write_url : Bytes
write_url = c_string (meta_url node settings settings.metabase_write_addr key)

abbrev found : Option Bytes → ℤ × Bytes
found none = (pos 404, [])
found (some body) = (pos 200, body)

abbrev either : Option Bytes → ℤ × Bytes → ℤ × Bytes
either none asked = asked
either (some body) asked = (pos 200, [])

abbrev server : List Sent → ℤ × Bytes
server [] = (pos 404, [])
server (r ∷ rs) = either r.body (found (last_body write_url rs))

-- An answer comes byte by byte.
abbrev bytewise : Bytes → List Piece
bytewise [] = []
bytewise (b ∷ bs) = record { ptr = b ∷ []; size = 1; nmemb = 1 } ∷ bytewise bs

abbrev status_of : List Call → ℤ
status_of [] = pos 0
status_of (e ∷ es) = (server (requests pointer_of es)).0

abbrev lib : Libcurl
lib = record {
  pointer = pointer_of;
  code = λ es. 0;
  form = λ es. (0, pointer_of es, pointer_of es);
  status = status_of;
  pieces = λ es. bytewise (server (requests pointer_of es)).1;
  write = λ stream bytes. (stream ++ bytes, true);
}

content-bytewise : (bytes : Bytes) → content (bytewise bytes) ≡ bytes
content-bytewise [] = refl
content-bytewise (b ∷ bs) = ap (◌∷◌ b) (content-bytewise bs)

bytewise_whole :
    (bytes : Bytes)
    → All (λ p. (p.size * p.nmemb ≡ length p.ptr) × (length p.ptr < word)) (bytewise bytes)
bytewise_whole [] = tt
bytewise_whole (b ∷ bs) = ((refl, omega arith), bytewise_whole bs)

lib-Serves : Serves lib server
lib-Serves = record {
  made = λ es. ground arith;
  granted = λ es. refl;
  written = λ stream bytes. refl;
  whole = λ es. bytewise_whole (server (requests pointer_of es)).1;
  answered = λ h es. content-bytewise (server (requests pointer_of (easy_perform h ∷ es))).1;
  judged = λ h es. refl;
}

-- A client that posts a form with a parameter, under a header.
abbrev methods : List Method
methods =
    call_header (codes "Expect") []
    ∷ call_add_param (codes "a") (codes "b")
    ∷ call_perform_post_form true
    ∷ []

nothing_open : Settled lib []
nothing_open = record { no_handle = refl; no_list = refl; no_form = refl; right = refl }

with_client-Settled_example :
    Settled lib (with_client lib false (codes "u") (run_all lib methods) []).1.calls
with_client-Settled_example = with_client-Settled lib false (codes "u") methods [] refl nothing_open

abbrev before : List Event
before = Event.http_post (codes "w") (0x31 ∷ []) ∷ []

http_of-sent_example :
    (http_of lib (Event.http_get (codes "u") ∷ before)
      ≡ ok (server (get_sent (codes "u") ∷ sent before)))
    × (http_of lib (Event.http_post (codes "u") (0x32 ∷ []) ∷ before)
        ≡ ok (server (post_sent (codes "u") (0x32 ∷ []) ∷ sent before)))
    × (requests pointer_of (calls_of lib before) ≡ sent before)
http_of-sent_example = http_of-sent lib server lib-Serves (codes "u") (0x32 ∷ []) before

server-HandsOut : HandsOut server write_url (meta_url node settings settings.metabase_read_addr key)
server-HandsOut rs body h = ap found h

abbrev http_node : External
http_node = record node { http = http_of lib }

-- The groups 5, 6 and 4 are recorded, and a session is opened before they are asked for.
abbrev later_world : World
later_world =
    note (upload_meta_info http_node settings (pos 5 ∷ pos 6 ∷ pos 4 ∷ []) key start).1
      Event.open_session

get_meta_info-through_curl_example : get_meta_info http_node settings key later_world ≡ (
  ok (pos 5 ∷ pos 6 ∷ pos 4 ∷ []),
  note later_world (Event.http_get (meta_url node settings settings.metabase_read_addr key)),
)
unfolding meta_url
get_meta_info-through_curl_example =
    get_meta_info-through_curl http_node settings lib server key (pos 5 ∷ pos 6 ∷ pos 4 ∷ [])
      (Event.open_session ∷ []) start later_world lib-Serves server-HandsOut tokenize-IsTokenizer
      print-IsPrinter refl refl refl

-- A client with one line of headers, at a libcurl that makes no other list.
abbrev refusing : Libcurl
refusing = record lib { pointer = λ es. if ltb (length es) 3 then suc (length es) else 0 }

abbrev client : Client
client = record {
  handle = 2;
  headers = 3;
  post = 0;
  last = 0;
  response = [];
  calls = slist_append 0 (codes "c: d") ∷ easy_init ∷ [];
}

add_line_refused_example :
    ((add_line refusing (codes "a: b") client).0 ≡ throw (runtime_error no_curl_header))
    × ((audit refusing (destroy refusing (add_line refusing (codes "a: b") client).1).calls).lists
        ≡ 3 ∷ [])
add_line_refused_example = add_line_refused refusing (codes "a: b") client [] refl refl refl

abbrev some_settings : List Setting
some_settings =
    with_header (codes "Expect") []
    ∷ to_timeout 10
    ∷ with_header (codes "Host") (codes "h")
    ∷ to_url (codes "v")
    ∷ to_timeout 65537
    ∷ []

perform_lem_example :
    let d = applied_all some_settings (plain_request (codes "u")) in
    let end =
      with_client lib false
        (codes "u")
        (run_all lib (map method_of some_settings) >> perform lib true)
        [] in
    (end.0 ≡ ok (server (d ∷ [])).0)
    × (end.1.response ≡ (server (d ∷ [])).1)
    × (requests pointer_of end.1.calls ≡ d ∷ [])
perform_lem_example = perform_lem lib server lib-Serves [] (codes "u") some_settings
