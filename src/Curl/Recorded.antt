-- ===== src/Curl/Recorded.antt =====
-- The groups that `uploadMetaInfo` records and `getMetaInfo` reads (src/proxy.cpp), through the client
-- of src/curl_wrapper.hpp.
use mathlib.Core.List.{append_assoc}
use libelliptics_proxy.Base.{
  ◌≡◌, refl, sym, ◌∙◌, ap, ℤ, pos, List, [], ◌∷◌, ◌++◌, Option, none, some, Bytes, eqb_bytes,
  eqb_bytes_self, if◌then◌else◌,
}
use libelliptics_proxy.Result.{ok}
use libelliptics_proxy.Ids.{Key}
use libelliptics_proxy.Text.{c_string}
use libelliptics_proxy.Metabase.{join_groups, meta_url, upload_meta_info, get_meta_info}
use libelliptics_proxy.Metabase.MetaInfo.{IsTokenizer, IsPrinter, get_meta_info-upload}
use libelliptics_proxy.Groups.Recorded.{or_before, upload_call, upload_meta_info-trace}
use libelliptics_proxy.Proxy.{External, Settings, World, Event, note}
use libelliptics_proxy.Curl.{Libcurl}
use libelliptics_proxy.Curl.Requests.{http_of, http_call}
use libelliptics_proxy.Curl.Sending.{Sent, Serves}
use libelliptics_proxy.Curl.Answers.{get_sent, request_of, sent}
use libelliptics_proxy.Curl.Refinement.{http_of-sent}

-- The body that was sent to a URL last.
abbrev body_at : Bytes → Sent → Option Bytes
body_at url r = if eqb_bytes r.url url then r.body else none

abbrev pub last_body : Bytes → List Sent → Option Bytes
last_body url [] = none
last_body url (r ∷ rs) = or_before (body_at url r) (last_body url rs)

-- A server that hands out at the second address what was sent to the first last.
abbrev pub HandsOut : (List Sent → ℤ × Bytes) → Bytes → Bytes → Type 0
HandsOut server write_url read_url =
    (rs : List Sent) (body : Bytes)
    → last_body write_url rs ≡ some body
    → server (get_sent read_url ∷ rs) ≡ (pos 200, body)

or_before_assoc : (a b c : Option Bytes) → or_before a (or_before b c) ≡ or_before (or_before a b) c
or_before_assoc none b c = refl
or_before_assoc (some a) b c = refl

last_body-append :
    (url : Bytes) (later rs : List Sent)
    → last_body url (later ++ rs) ≡ or_before (last_body url later) (last_body url rs)
last_body-append url [] rs = refl
last_body-append url (r ∷ later) rs =
    rw (last_body-append url later rs) (or_before_assoc (body_at url r) (last_body url later) _)

sent-append : (later es : List Event) → sent (later ++ es) ≡ sent later ++ sent es
sent-append [] es = refl
sent-append (e ∷ later) es =
    rw (sent-append later es) (sym (append_assoc (request_of (http_call e)) (sent later) (sent es)))

module _ (x : External) (c : Settings) (lib : Libcurl) (server : List Sent → ℤ × Bytes) where
  -- With the client behind the requests of a proxy, and a libcurl that grants its calls: the groups
  -- that were recorded for a key are what a later request reads, in their order, whatever calls lie in
  -- between, if none of them posts for the key, and the server hands out the body that was posted last.
  pub get_meta_info-through_curl :
      (key : Key) (groups : List ℤ) (later : List Event) (w w1 : World)
      → Serves lib server
      → HandsOut server
          (c_string (meta_url x c c.metabase_write_addr key))
          (meta_url x c c.metabase_read_addr key)
      → IsTokenizer x.tokenize
      → IsPrinter x.platform.print x.platform.read_int
      → x.http ≡ http_of lib
      → last_body (c_string (meta_url x c c.metabase_write_addr key)) (sent later) ≡ none
      → w1.trace ≡ later ++ (upload_meta_info x c groups key w).1.trace
      → get_meta_info x c key w1
        ≡ (ok groups, note w1 (Event.http_get (meta_url x c c.metabase_read_addr key)))
  get_meta_info-through_curl key groups later w w1 serves hands tokens printer client quiet
        between =
      let write_url = c_string (meta_url x c c.metabase_write_addr key) in
      let read_url = meta_url x c c.metabase_read_addr key in
      let body = join_groups x.platform.print [] groups in
      let before : w1.trace ≡ later ++ (upload_call x c groups key ∷ w.trace) =
        between ∙ ap (λ v. later ++ v.trace) (upload_meta_info-trace x c groups key w) in
      let newest : last_body write_url (sent w1.trace) ≡ some body =
        rw
          (
            before,
            sent-append later (upload_call x c groups key ∷ w.trace),
            last_body-append write_url (sent later) (sent (upload_call x c groups key ∷ w.trace)),
            quiet,
            eqb_bytes_self write_url,
          )
          refl in
      get_meta_info-upload x c key groups w1 tokens printer (
        ap (λ f. f (Event.http_get read_url ∷ w1.trace)) client
        ∙ (http_of-sent lib server serves read_url [] w1.trace).0
        ∙ ap ok (hands (sent w1.trace) body newest))
