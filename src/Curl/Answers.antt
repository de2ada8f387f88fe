-- ===== src/Curl/Answers.antt =====
-- The answers of the two requests of a proxy (src/curl_wrapper.hpp, src/proxy.cpp) at a server.
use libelliptics_proxy.Base.{
  ◌≡◌, refl, take_all, ℤ, pos, Bool, true, false, List, [], ◌∷◌, ◌++◌, none, some, Bytes, length,
  arith, if◌then◌else◌,
}
use libelliptics_proxy.Result.{ok}
use libelliptics_proxy.Proxy.{Event, codes}
use libelliptics_proxy.Text.{c_string}
use libelliptics_proxy.Resource.{null, is_held, reset}
use libelliptics_proxy.Curl.{
  CurlOption, timeout, url, postfields, httpheader, postfieldsize, nosignal, forbid_reuse, Call,
  easy_init, easy_setopt, formfree, slist_append, Libcurl, Client, C, ◌>>=◌, ◌>>◌, record_call,
}
use libelliptics_proxy.Curl.Methods.{
  header, set_timeout, set_url, perform, perform_post, with_client, set_headers, init, fresh_client,
  destroy, destroy_members, close_scope, clean_up_handles, free_lists,
}
use libelliptics_proxy.Curl.Requests.{get_request, post_request}
use libelliptics_proxy.Curl.Requests.{HttpCall, http_read, http_write, no_http, http_call}
use libelliptics_proxy.Curl.Sending.{
  Sent, in_force, requests, Serves, transferred, self, setopt_granted, add_line_granted, served,
  lines-null,
}

abbrev expect : Bytes
expect = codes "Expect: "

-- The requests of the two calls.
abbrev pub get_sent : Bytes → Sent
get_sent u = record { url = c_string u; headers = expect ∷ []; timeout = pos 10; body = none }

abbrev pub post_sent : Bytes → Bytes → Sent
post_sent u body = record { url = c_string u; headers = []; timeout = pos 10; body = some body }

abbrev pub request_of : HttpCall → List Sent
request_of (http_read u) = get_sent u ∷ []
request_of (http_write u body) = post_sent u body ∷ []
request_of no_http = []

-- The requests of a proxy's calls, the newest first.
abbrev pub sent : List Event → List Sent
sent [] = []
sent (e ∷ es) = request_of (http_call e) ++ sent es

expect_line : c_string (codes "Expect" ++ (0x3a ∷ 0x20 ∷ []) ++ []) ≡ expect
unfolding c_string
expect_line = refl

abbrev pub with_option : CurlOption → Client → Client
with_option option c = record_call (easy_setopt c.handle option) c

module _ (lib : Libcurl) (server : List Sent → ℤ × Bytes) (s : Serves lib server) where
  -- The calls of a constructor, and the client after the settings that both requests begin with.
  abbrev pub opened : Bytes → List Call → List Call
  opened u es =
      let h = lib.pointer (easy_init ∷ es) in
      easy_setopt h (url (c_string u))
      ∷ (easy_setopt h (forbid_reuse (pos 1))
          ∷ (easy_setopt h (nosignal (pos 1)) ∷ (easy_init ∷ es)))

  abbrev ready : Bytes → List Call → Client
  ready u es =
      let h = lib.pointer (easy_init ∷ es) in
      let calls = slist_append null expect ∷ opened u es in
      record {
        handle = h;
        headers = lib.pointer calls;
        post = null;
        last = null;
        response = [];
        calls = easy_setopt h (timeout (pos 10)) ∷ calls;
      }

  -- The client right before the transfer of a request.
  abbrev pub to_get : Bytes → List Call → Client
  to_get u es = with_option (httpheader (ready u es).headers) (ready u es)

  abbrev pub to_post : Bytes → Bytes → List Call → Client
  to_post u body es =
      with_option (postfieldsize (length body)) (with_option (postfields body) (ready u es))

  pub opened_granted :
      (u : Bytes) (es : List Call)
      → (init lib false >> set_url lib u) (fresh_client lib es)
        ≡ (ok tt, record (fresh_client lib es) { calls = opened u es })
  unfolding init fresh_client
  opened_granted u es =
      rw
        (
          setopt_granted lib server s (nosignal (pos 1)) (fresh_client lib es),
          setopt_granted lib server s (forbid_reuse (pos 1))
              (with_option (nosignal (pos 1)) (fresh_client lib es)),
          setopt_granted lib server s (url (c_string u)) (
              with_option (forbid_reuse (pos 1))
                (with_option (nosignal (pos 1)) (fresh_client lib es))),
        )
        refl

  prepared :
      {A : Type 0} (u : Bytes) (es : List Call) (f : Unit {0} → C A)
      → (header lib (codes "Expect") [] >> (set_timeout lib 10 >>= f))
          (record (fresh_client lib es) { calls = opened u es })
        ≡ f tt (ready u es)
  unfolding header fresh_client
  prepared u es f =
      rw
        (
          expect_line,
          add_line_granted lib server s expect
              (record (fresh_client lib es) { calls = opened u es }),
          setopt_granted lib server s (timeout (pos 10)) (record (fresh_client lib es) {
            headers = lib.pointer (slist_append null expect ∷ opened u es);
            calls = slist_append null expect ∷ opened u es;
          }),
        )
        refl

  pub requests-destroy :
      (c : Client) → requests lib.pointer (destroy lib c).calls ≡ requests lib.pointer c.calls
  unfolding destroy destroy_members reset
  requests-destroy c = by_held (is_held c.headers) (is_held c.handle)
    where
      by_held :
          (b d : Bool)
          → requests lib.pointer (
              clean_up_handles
                (if d then c.handle ∷ [] else [])
                (free_lists (if b then c.headers ∷ [] else []) (formfree c.post ∷ c.calls)))
            ≡ requests lib.pointer c.calls
      by_held true true = refl
      by_held true false = refl
      by_held false true = refl
      by_held false false = refl

  pub get_in_force :
      (u : Bytes) (es : List Call) → in_force lib.pointer (to_get u es).calls ≡ get_sent u
  get_in_force u es =
      rw
        (
          s.made (slist_append null expect ∷ opened u es),
          self lib server s (lib.pointer (slist_append null expect ∷ opened u es)),
          lines-null lib server s es,
        )
        refl

  pub post_in_force :
      (u body : Bytes) (es : List Call)
      → in_force lib.pointer (to_post u body es).calls ≡ post_sent u body
  post_in_force u body es = rw (take_all (length body) body (omega arith)) refl

  -- A client as it is destroyed after a request.
  abbrev pub after : Sent → Client → List Call → Client
  after r c es = destroy lib (record c {
    response = (server (r ∷ requests lib.pointer es)).1;
    calls = transferred lib server s c;
  })

  pub get_answer :
      (u : Bytes) (es : List Call)
      → with_client lib false u (get_request lib) es ≡ (
        ok (server (get_sent u ∷ requests lib.pointer es)).0,
        after (get_sent u) (to_get u es) es,
      )
  unfolding with_client close_scope get_request perform set_headers
  get_answer u es =
      rw
        (
          opened_granted u es,
          prepared u es (λ u. perform lib true),
          setopt_granted lib server s (httpheader (ready u es).headers) (ready u es),
          served lib server s (to_get u es),
          get_in_force u es,
        )
        refl

  pub post_answer :
      (u body : Bytes) (es : List Call)
      → with_client lib false u (post_request lib body) es ≡ (
        ok (server (post_sent u body ∷ requests lib.pointer es)).0,
        after (post_sent u body) (to_post u body es) es,
      )
  unfolding with_client close_scope post_request perform_post
  post_answer u body es =
      rw
        (
          opened_granted u es,
          prepared u es (λ u. perform_post lib body true),
          setopt_granted lib server s (postfields body) (ready u es),
          setopt_granted lib server s (postfieldsize (length body))
              (with_option (postfields body) (ready u es)),
          served lib server s (to_post u body es),
          post_in_force u body es,
        )
        refl
