-- ===== src/Curl/Requests.antt =====
-- The two requests that `uploadMetaInfo` and `getMetaInfo` (src/proxy.cpp) make with a client, and what
-- libcurl sends for them.
use libelliptics_proxy.Base.{ℤ, true, false, List, [], ◌∷◌, Bytes}
use libelliptics_proxy.Result.{Result, ok, throw, undefined}
use libelliptics_proxy.Proxy.{Event, codes}
use libelliptics_proxy.Curl.{Call, Libcurl, Client, C, ◌>>◌}
use libelliptics_proxy.Curl.Methods.{header, set_timeout, perform, perform_post, with_client}

-- The calls of the proxy that are requests.
pub data HttpCall : Type 0 where
  http_read : Bytes → HttpCall
  http_write : Bytes → Bytes → HttpCall
  no_http : HttpCall

abbrev pub http_call : Event → HttpCall
http_call (Event.http_get u) = http_read u
http_call (Event.http_post u body) = http_write u body
http_call _ = no_http

module _ (lib : Libcurl) where
  unfoldable pub get_request : C ℤ
  unfolding header perform
  get_request = do header lib (codes "Expect") []; set_timeout lib 10; perform lib true

  unfoldable pub post_request : Bytes → C ℤ
  unfolding header perform_post
  post_request body = do
    header lib (codes "Expect") []
    set_timeout lib 10
    perform_post lib body true

  -- What `uploadMetaInfo` and `getMetaInfo` have of a request: its status and the text of the answer.
  unfoldable pub answer_of : Result ℤ × Client → Result (ℤ × Bytes) × List Call
  answer_of (ok status, c) = (ok (status, c.response), c.calls)
  answer_of (throw e, c) = (throw e, c.calls)
  answer_of (undefined, c) = (undefined, c.calls)

  -- The calls of libcurl for a call of the proxy, from those made before.
  unfoldable pub through_curl : HttpCall → List Call → Result (ℤ × Bytes) × List Call
  unfolding get_request post_request answer_of with_client
  through_curl (http_read u) calls = answer_of (with_client lib false u get_request calls)
  through_curl (http_write u body) calls =
      answer_of (with_client lib false u (post_request body) calls)
  through_curl no_http calls = (undefined, calls)

  -- The calls of libcurl for the calls of a proxy.
  unfoldable pub calls_of : List Event → List Call
  unfolding through_curl
  calls_of [] = []
  calls_of (e ∷ es) = (through_curl (http_call e) (calls_of es)).1

  -- What the newest call of the proxy answers.
  unfoldable pub http_of : List Event → Result (ℤ × Bytes)
  unfolding through_curl calls_of
  http_of [] = undefined
  http_of (e ∷ es) = (through_curl (http_call e) (calls_of es)).0
