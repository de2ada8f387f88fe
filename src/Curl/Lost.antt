-- ===== src/Curl/Lost.antt =====
-- `header` of src/curl_wrapper.hpp where libcurl cannot make the longer list.
use libelliptics_proxy.Base.{List, ◌≡◌, refl, Bool, true, false, [], ◌∷◌, Bytes, if◌then◌else◌}
use libelliptics_proxy.Result.{throw, runtime_error, no_curl_header}
use libelliptics_proxy.Resource.{Ptr, null, is_held, release, reset}
use libelliptics_proxy.Curl.{slist_append, formfree, Libcurl, Client}
use libelliptics_proxy.Curl.Methods.{add_line, destroy_members, destroy, clean_up_handles}
use libelliptics_proxy.Curl.Ledger.{audit}

module _ (lib : Libcurl) where
  -- Where a client has a list of headers, and libcurl refuses to add a line, `header` throws, and the
  -- list is never freed: it is open at libcurl before, and still is when the client is destroyed.
  pub add_line_refused :
      (line : Bytes) (c : Client) (ls : List Ptr)
      → is_held c.headers ≡ true
      → (audit lib c.calls).lists ≡ c.headers ∷ ls
      → lib.pointer (slist_append c.headers line ∷ c.calls) ≡ null
      → ((add_line lib line c).0 ≡ throw (runtime_error no_curl_header))
        × ((audit lib (destroy lib (add_line lib line c).1).calls).lists ≡ c.headers ∷ ls)
  unfolding add_line release reset destroy destroy_members
  add_line_refused line c ls held open_ refused =
      (rw refused refl, rw refused (by_handle (is_held c.handle)))
    where
      by_handle :
          (b : Bool)
          → (audit lib (
              clean_up_handles
                (if b then c.handle ∷ [] else [])
                (formfree c.post ∷ (slist_append c.headers line ∷ c.calls)))).lists
            ≡ c.headers ∷ ls
      by_handle true = rw (held, refused) open_
      by_handle false = rw (held, refused) open_
