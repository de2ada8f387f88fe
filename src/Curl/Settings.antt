-- ===== src/Curl/Settings.antt =====
-- What a client (src/curl_wrapper.hpp) sends after any settings of its URL, timeout and headers.
use libelliptics_proxy.Base.{
  ℕ, ◌%◌, ◌^◌, ◌≡◌, refl, sym, ap, ◌∙◌, ℤ, pos, Bool, true, false, List, [], ◌∷◌, ◌++◌, map, none,
  Bytes, arith, if◌then◌else◌,
}
use libelliptics_proxy.Result.{ok}
use libelliptics_proxy.Text.{c_string}
use libelliptics_proxy.Resource.{null, is_held}
use libelliptics_proxy.Curl.{
  timeout, url, httpheader, Call, slist_append, Libcurl, Client, ◌>>◌, hand_on,
}
use libelliptics_proxy.Curl.Methods.{
  Method, call_url, call_timeout, call_header, run, run_all, header, set_headers, perform,
  with_client, close_scope, fresh_client, destroy, destroy_members,
}
use libelliptics_proxy.Curl.Sending.{
  Sent, lines, in_force, requests, Serves, transferred, self, setopt_granted, add_line_granted,
  served, requests-transferred, lines-null,
}
use libelliptics_proxy.Curl.Answers.{requests-destroy, opened, opened_granted, with_option}

pub data Setting : Type 0 where
  to_url : Bytes → Setting
  to_timeout : ℕ → Setting
  with_header : Bytes → Bytes → Setting

abbrev pub method_of : Setting → Method
method_of (to_url text) = call_url text
method_of (to_timeout seconds) = call_timeout seconds
method_of (with_header name value) = call_header name value

-- What a setting does to the request: a header is one more line at the end.
abbrev pub applied : Setting → Sent → Sent
applied (to_url text) d = record d { url = c_string text }
applied (to_timeout seconds) d = record d { timeout = pos (seconds % 2 ^ 16) }
applied (with_header name value) d = record d {
  headers = d.headers ++ (c_string (name ++ (0x3a ∷ 0x20 ∷ []) ++ value) ∷ []);
}

abbrev pub applied_all : List Setting → Sent → Sent
applied_all [] d = d
applied_all (t ∷ ts) d = applied_all ts (applied t d)

abbrev pub plain_request : Bytes → Sent
plain_request u = record { url = c_string u; headers = []; timeout = pos 0; body = none }

module _ (lib : Libcurl) (server : List Sent → ℤ × Bytes) (s : Serves lib server)
    (es : List Call) where
  -- A client that is set to send a request.
  record Built (d : Sent) (c : Client) : Type 0 where
    pub forced : in_force lib.pointer c.calls ≡ record d { headers = [] }
    pub listed : lines lib.pointer c.calls c.headers ≡ d.headers
    pub seen : requests lib.pointer c.calls ≡ requests lib.pointer es
    pub silent : c.response ≡ []

  run_setting :
      (t : Setting) (d : Sent) (c : Client)
      → Built d c
      → (c' : Client) × (run lib (method_of t) c ≡ (ok tt, c')) × Built (applied t d) c'
  unfolding run header
  run_setting (to_url text) d c h = (
    with_option (url (c_string text)) c,
    setopt_granted lib server s (url (c_string text)) c,
    record {
      forced = ap {A = Sent} (λ f. record f { url = c_string text }) h.forced;
      listed = h.listed;
      seen = h.seen;
      silent = h.silent;
    },
  )
  run_setting (to_timeout seconds) d c h = (
    with_option (timeout (pos (seconds % 2 ^ 16))) c,
    setopt_granted lib server s (timeout (pos (seconds % 2 ^ 16))) c,
    record {
      forced = ap {A = Sent} (λ f. record f { timeout = pos (seconds % 2 ^ 16) }) h.forced;
      listed = h.listed;
      seen = h.seen;
      silent = h.silent;
    },
  )
  run_setting (with_header name value) d c h =
      let line = c_string (name ++ (0x3a ∷ 0x20 ∷ []) ++ value) in
      let calls = slist_append c.headers line ∷ c.calls in
      (
        record c { headers = lib.pointer calls; calls = calls },
        add_line_granted lib server s line c,
        record {
          forced = h.forced;
          listed =
              rw (self lib server s (lib.pointer calls)) (ap (λ ls. ls ++ (line ∷ [])) h.listed);
          seen = h.seen;
          silent = h.silent;
        },
      )

  run_settings :
      (ts : List Setting) (d : Sent) (c : Client)
      → Built d c
      → (c' : Client) × (run_all lib (map method_of ts) c ≡ (ok tt, c'))
        × Built (applied_all ts d) c'
  unfolding run_all
  run_settings [] d c h = (c, refl, h)
  run_settings (t ∷ ts) d c h =
      let (c1, e1, h1) = run_setting t d c h in
      let (c2, e2, h2) = run_settings ts (applied t d) c1 h1 in
      (c2, ap (hand_on (λ u. run_all lib (map method_of ts))) e1 ∙ e2, h2)

  -- The lines that are handed to a transfer are those that were added.
  lines_set :
      (d : Sent) (c : Client) (b : Bool)
      → Built d c
      → is_held c.headers ≡ b
      → (if b then lines lib.pointer c.calls c.headers else []) ≡ d.headers
  lines_set d c true h e = h.listed
  lines_set d c false h e =
      sym (lines-null lib server s c.calls) ∙ ap (lines lib.pointer c.calls) no_list ∙ h.listed
    where
      no_list : null ≡ c.headers
      no_list = ground (arith, e)

  in_force_set :
      (d : Sent) (c : Client)
      → Built d c
      → in_force lib.pointer (with_option (httpheader c.headers) c).calls ≡ d
  in_force_set d c h =
      ap {A = Sent}
        (λ f. record f {
          headers = if is_held c.headers then lines lib.pointer c.calls c.headers else [];
        })
        h.forced
      ∙ ap {A = List Bytes} (λ ls. record d { headers = ls })
          (lines_set d c (is_held c.headers) h refl)

  -- The client at the end of a transfer.
  abbrev transferred_with : Sent → Client → Client
  transferred_with d c = record c {
    response = (server (d ∷ requests lib.pointer es)).1;
    calls = transferred lib server s (with_option (httpheader c.headers) c);
  }

  perform-Built :
      (d : Sent) (c : Client)
      → Built d c
      → perform lib true c ≡ (ok (server (d ∷ requests lib.pointer es)).0, transferred_with d c)
  unfolding perform set_headers
  perform-Built d c h =
      rw
        (
          setopt_granted lib server s (httpheader c.headers) c,
          served lib server s (with_option (httpheader c.headers) c),
          in_force_set d c h,
          h.seen,
          h.silent,
        )
        refl

  -- Whatever URLs, timeouts and headers are set on a client, in whatever order, before a transfer: a
  -- libcurl that grants its calls sends one request with the last URL, the last timeout and all lines
  -- of the headers in the order in which they were added, and the transfer returns the status that
  -- the server has for it.
  pub perform_lem :
      (u : Bytes) (ts : List Setting)
      → let d = applied_all ts (plain_request u) in
        let end = with_client lib false u (run_all lib (map method_of ts) >> perform lib true) es in
        (end.0 ≡ ok (server (d ∷ requests lib.pointer es)).0)
        × (end.1.response ≡ (server (d ∷ requests lib.pointer es)).1)
        × (requests lib.pointer end.1.calls ≡ d ∷ requests lib.pointer es)
  unfolding with_client close_scope fresh_client destroy destroy_members
  perform_lem u ts =
      let c0 : Client = record (fresh_client lib es) { calls = opened lib server s u es } in
      let built : Built (plain_request u) c0 = record {
        forced = refl;
        listed = lines-null lib server s (opened lib server s u es);
        seen = refl;
        silent = refl;
      } in
      let (c, e, h) = run_settings ts (plain_request u) c0 built in
      let d = applied_all ts (plain_request u) in
      let body = ap (hand_on (λ v. perform lib true)) e ∙ perform-Built d c h in
      let sends =
        requests-destroy lib server s (transferred_with d c)
        ∙ requests-transferred lib server s (with_option (httpheader c.headers) c)
        ∙ rw (in_force_set d c h, h.seen) refl in
      (
        rw (opened_granted lib server s u es, body) refl,
        rw (opened_granted lib server s u es, body) refl,
        rw (opened_granted lib server s u es, body) sends,
      )
