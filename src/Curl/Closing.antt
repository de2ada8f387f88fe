-- ===== src/Curl/Closing.antt =====
-- What is left at libcurl when a client (src/curl_wrapper.hpp) is destroyed.
use libelliptics_proxy.Base.{
  ◌≡◌, refl, ◌∙◌, Bool, true, false, List, [], ◌∷◌, Bytes, arith, if◌then◌else◌,
}
use libelliptics_proxy.Result.{Result, ok, throw, undefined}
use libelliptics_proxy.Resource.{null, is_held, reset}
use libelliptics_proxy.Curl.{CurlOption, Call, easy_init, formfree, Libcurl, Client, C, ◌>>◌}
use libelliptics_proxy.Curl.Methods.{
  setopt, init, fresh_client, free_lists, clean_up_handles, destroy_members, destroy, close_scope,
  with_client, Method, run_all, set_url,
}
use libelliptics_proxy.Curl.Ledger.{audit, refused, eqb_self, take_out-owned, Settled}
use libelliptics_proxy.Curl.Rules.{Keeps, plain, bind-Keeps, check_error-Keeps}
use libelliptics_proxy.Curl.Keeping.{Matches, plain_option, setopt-Keeps, run_all-Keeps, init-Keeps}

module _ (lib : Libcurl) where
  free_lists-Matches :
      (c : Client)
      → Matches lib c
      → Matches lib
          (record c { headers = null; calls = free_lists (reset c.headers null).1 c.calls })
  unfolding reset
  free_lists-Matches c h = record {
    held = h.held;
    same_handle =
        by_held (λ calls. (audit lib calls).handle ≡ c.handle) h.same_handle h.same_handle;
    same_list = by_list (is_held c.headers) refl;
    same_form = by_held (λ calls. (audit lib calls).form ≡ c.post) h.same_form h.same_form;
    right = by_right (is_held c.headers) refl;
  }
    where
      freed : Bool → List Call
      freed b = free_lists (if b then c.headers ∷ [] else []) c.calls

      by_held :
          (P : List Call → Type 0)
          → P (freed true)
          → P (freed false)
          → P (freed (is_held c.headers))
      by_held P gone stays = elim (is_held c.headers) as (λ b. P (freed b)) [
        | true ↦ gone
        | false ↦ stays
      ]

      by_list :
          (b : Bool) → is_held c.headers ≡ b → (audit lib (freed b)).lists ≡ refused lib (freed b)
      by_list true e = rw h.same_list (take_out-owned c.headers (refused lib c.calls) e)
      by_list false e = h.same_list ∙ rw e refl

      by_right : (b : Bool) → is_held c.headers ≡ b → (audit lib (freed b)).misused ≡ false
      by_right true e = rw (h.same_list, e, eqb_self c.headers) h.right
      by_right false e = h.right

  clean_up_handles-Settled :
      (c : Client)
      → Matches lib c
      → c.headers ≡ null
      → c.post ≡ null
      → Settled lib (clean_up_handles (reset c.handle null).1 c.calls)
  unfolding reset
  clean_up_handles-Settled c h no_list no_form = rw h.held (record {
    no_handle = refl;
    no_list = rw (h.same_list, no_list) refl;
    no_form = h.same_form ∙ no_form;
    right = ground (arith, h.same_handle, h.right, h.held);
  })

  destroy_members-Settled :
      (c : Client) → Matches lib c → c.post ≡ null → Settled lib (destroy_members lib c).calls
  unfolding destroy_members
  destroy_members-Settled c h none = clean_up_handles-Settled _ (free_lists-Matches c h) refl none

  destroy-Settled : (c : Client) → Matches lib c → Settled lib (destroy lib c).calls
  unfolding destroy destroy_members
  destroy-Settled c h =
      clean_up_handles-Settled _
        (free_lists-Matches (record c { post = null; calls = formfree c.post ∷ c.calls }) freed)
        refl refl
    where
      freed : Matches lib (record c { post = null; calls = formfree c.post ∷ c.calls })
      freed = record {
        held = h.held;
        same_handle = h.same_handle;
        same_list = h.same_list;
        same_form = refl;
        right = ground (arith, h.same_form, h.right);
      }

  close_scope-Settled :
      {A : Type 0} (body : C A) (r : Result (Unit {0}) × Client)
      → Keeps (Matches lib) body
      → Matches lib r.1
      → r.1.post ≡ null
      → Settled lib (close_scope lib body r).1.calls
  unfolding close_scope
  close_scope-Settled body (ok u, c) keeps h none = destroy-Settled (body c).1 (keeps.kept c h)
  close_scope-Settled body (throw e, c) keeps h none = destroy_members-Settled c h none
  close_scope-Settled body (undefined, c) keeps h none = destroy_members-Settled c h none

  setopt-post : (option : CurlOption) → Keeps (λ c. c.post ≡ null) (setopt lib option)
  unfolding setopt
  setopt-post option = record {
    kept = λ c h. (check_error-Keeps {I = λ c. c.post ≡ null} _).kept _ h;
  }

  opened-post :
      (single_threaded : Bool) (text : Bytes)
      → Keeps (λ c. c.post ≡ null) (init lib single_threaded >> set_url lib text)
  unfolding init
  opened-post single_threaded text = search (plain, setopt-post) depth 8

  fresh_client-Matches :
      (calls : List Call)
      → is_held (lib.pointer (easy_init ∷ calls)) ≡ true
      → Settled lib calls
      → Matches lib (fresh_client lib calls)
  unfolding fresh_client
  fresh_client-Matches calls made h = record {
    held = made;
    same_handle = refl;
    same_list = h.no_list;
    same_form = h.no_form;
    right = ground (arith, h.no_handle, h.right);
  }

  -- Where `curl_easy_init` gives a handle, whatever else libcurl answers, and whatever methods are
  -- called on a client, to their end or up to an exception, also one of the constructor: every call
  -- named the handle of the client, and a list and a form that were open, and when the client is
  -- gone, the handle and the form have been given back to libcurl, each once, and of the lists of
  -- headers those that are still open are just those that libcurl refused to make longer.
  pub with_client-Settled :
      (single_threaded : Bool) (text : Bytes) (methods : List Method) (calls : List Call)
      → is_held (lib.pointer (easy_init ∷ calls)) ≡ true
      → Settled lib calls
      → Settled lib (with_client lib single_threaded text (run_all lib methods) calls).1.calls
  unfolding with_client fresh_client
  with_client-Settled single_threaded text methods calls made h =
      close_scope-Settled (run_all lib methods)
        ((init lib single_threaded >> set_url lib text) (fresh_client lib calls))
        (run_all-Keeps methods)
        ((bind-Keeps {I = Matches lib} (init-Keeps single_threaded)
            (λ u. setopt-Keeps _ plain_option)).kept
          _ (fresh_client-Matches calls made h))
        ((opened-post single_threaded text).kept _ refl)
