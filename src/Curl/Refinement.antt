-- ===== src/Curl/Refinement.antt =====
-- The client of src/curl_wrapper.hpp behind the requests of a proxy (src/proxy.cpp).
use libelliptics_proxy.Base.{◌≡◌, refl, ◌∙◌, ap, ℤ, List, [], ◌∷◌, ◌++◌, Bytes}
use libelliptics_proxy.Result.{ok}
use libelliptics_proxy.Proxy.{Event}
use libelliptics_proxy.Curl.{Call, Libcurl, Client}
use libelliptics_proxy.Curl.Methods.{destroy, destroy_members}
use libelliptics_proxy.Curl.Requests.{through_curl, calls_of, http_of}
use libelliptics_proxy.Curl.Requests.{
  HttpCall, http_read, http_write, no_http, http_call, answer_of,
}
use libelliptics_proxy.Curl.Sending.{Sent, in_force, requests, Serves, requests-transferred}
use libelliptics_proxy.Curl.Answers.{
  get_sent, post_sent, request_of, sent, requests-destroy, get_in_force, post_in_force, get_answer,
  post_answer, to_get, to_post, after,
}

module _ (lib : Libcurl) (server : List Sent → ℤ × Bytes) (s : Serves lib server) where
  requests-after :
      (r : Sent) (c : Client) (es : List Call)
      → in_force lib.pointer c.calls ≡ r
      → requests lib.pointer c.calls ≡ requests lib.pointer es
      → requests lib.pointer (after lib server s r c es).calls ≡ r ∷ requests lib.pointer es
  requests-after r c es f k =
      requests-destroy lib server s _ ∙ requests-transferred lib server s c ∙ rw (f, k) refl

  requests-through_curl :
      (h : HttpCall) (es : List Call)
      → requests lib.pointer (through_curl lib h es).1 ≡ request_of h ++ requests lib.pointer es
  unfolding through_curl answer_of
  requests-through_curl (http_read u) es = rw (get_answer lib server s u es) (
      requests-after (get_sent u) (to_get lib server s u es) es (get_in_force lib server s u es)
        refl)
  requests-through_curl (http_write u body) es = rw (post_answer lib server s u body es) (
      requests-after (post_sent u body) (to_post lib server s u body es) es
        (post_in_force lib server s u body es) refl)
  requests-through_curl no_http es = refl

  pub requests-calls_of : (es : List Event) → requests lib.pointer (calls_of lib es) ≡ sent es
  unfolding calls_of
  requests-calls_of [] = refl
  requests-calls_of (e ∷ es) =
      requests-through_curl (http_call e) (calls_of lib es)
      ∙ ap (◌++◌ (request_of (http_call e))) (requests-calls_of es)

  read_answer :
      (u : Bytes) (es : List Call)
      → (through_curl lib (http_read u) es).0 ≡ ok (server (get_sent u ∷ requests lib.pointer es))
  unfolding through_curl answer_of destroy destroy_members
  read_answer u es = rw (get_answer lib server s u es) refl

  write_answer :
      (u body : Bytes) (es : List Call)
      → (through_curl lib (http_write u body) es).0
        ≡ ok (server (post_sent u body ∷ requests lib.pointer es))
  unfolding through_curl answer_of destroy destroy_members
  write_answer u body es = rw (post_answer lib server s u body es) refl

  -- Where libcurl grants every call, no transfer fails, the answer's pieces are whole and written
  -- whole, and they and the status are what a server answers to the requests it got (`Serves`), the
  -- client refines the calls `http_get` and `http_post` of the proxy: whatever calls went before, a
  -- request is answered by the status and the whole text that the server has for it, and the server
  -- sees one request for each call, in their order: its URL, a timeout of 10 seconds, the line that
  -- clears `Expect` with a request to read, and the whole body, but no such line, with one to write.
  pub http_of-sent :
      (u body : Bytes) (es : List Event)
      → (http_of lib (Event.http_get u ∷ es) ≡ ok (server (get_sent u ∷ sent es)))
        × (http_of lib (Event.http_post u body ∷ es) ≡ ok (server (post_sent u body ∷ sent es)))
        × (requests lib.pointer (calls_of lib es) ≡ sent es)
  unfolding http_of
  http_of-sent u body es = (
    read_answer u (calls_of lib es) ∙ ap (λ r. ok (server (get_sent u ∷ r))) (requests-calls_of es),
    write_answer u body (calls_of lib es)
        ∙ ap (λ r. ok (server (post_sent u body ∷ r))) (requests-calls_of es),
    requests-calls_of es,
  )
