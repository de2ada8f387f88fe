-- ===== src/Curl/Keeping.antt =====
-- The methods of a client (src/curl_wrapper.hpp) keep in step what is open at libcurl and what the
-- client holds.
use libelliptics_proxy.Base.{
  ℕ, ◌*◌, ℤ, ◌≡◌, refl, Bool, true, false, List, [], ◌∷◌, Bytes, ◌==◌, arith, if◌then◌else◌,
}
use libelliptics_proxy.Result.{runtime_error, no_curl_header, form_refused}
use libelliptics_proxy.Resource.{is_held, release, reset}
use libelliptics_proxy.Curl.{
  CurlOption, httpheader, httppost, Part, easy_setopt, easy_perform, easy_getinfo, slist_append,
  formadd, handed, Libcurl, Piece, Client, record_call, hand_over, curl_write,
}
use libelliptics_proxy.Curl.Methods.{
  setopt, add_line, header, add_part, easy_transfer, get_status, transfer, set_headers, set_post,
  perform, perform_post_form, perform_post, init, Method, call_url, call_timeout, call_timeout_ms,
  call_setopt, call_header, call_add_file, call_add_param, call_perform, call_perform_post_form,
  call_perform_post, run, run_all, done,
}
use libelliptics_proxy.Curl.Ledger.{
  Ledger, is_open, audit, owned, refused, owned-is_list, grown-owned,
}
use libelliptics_proxy.Curl.Rules.{
  Keeps, plain, bind-Keeps, if-Keeps, pure-Keeps, raise-Keeps, check_error-Keeps,
}

-- What is open is what the client holds, and the lists that libcurl refused to make longer.
pub record Matches (lib : Libcurl) (c : Client) : Type 0 where
  pub held : is_held c.handle ≡ true
  pub same_handle : (audit lib c.calls).handle ≡ c.handle
  pub same_list : (audit lib c.calls).lists ≡ owned c.headers (refused lib c.calls)
  pub same_form : (audit lib c.calls).form ≡ c.post
  pub right : (audit lib c.calls).misused ≡ false

pub plain_option : (l : Ledger) → true ≡ true
plain_option l = refl

module _ {lib : Libcurl} where
  setopt-Matches :
      (option : CurlOption) (c : Client)
      → is_open option (audit lib c.calls) ≡ true
      → Matches lib c
      → Matches lib (record_call (easy_setopt c.handle option) c)
  setopt-Matches option c open_ h = record {
    held = h.held;
    same_handle = h.same_handle;
    same_list = h.same_list;
    same_form = h.same_form;
    right = ground (arith, h.held, h.same_handle, h.right, open_);
  }

  pub setopt-Keeps :
      (option : CurlOption)
      → ((l : Ledger) → is_open option l ≡ true)
      → Keeps (Matches lib) (setopt lib option)
  unfolding setopt
  setopt-Keeps option open_ = record {
    kept =
        λ c h. (check_error-Keeps {I = Matches lib} _).kept _ (setopt-Matches option c (open_ _) h);
  }

  set_headers-Keeps : Keeps (Matches lib) (set_headers lib)
  unfolding setopt set_headers
  set_headers-Keeps = record {
    kept = λ c h. (check_error-Keeps {I = Matches lib} _).kept _ (
        setopt-Matches (httpheader c.headers) c
          (rw h.same_list (owned-is_list c.headers (refused lib c.calls))) h);
  }

  set_post-Keeps : Keeps (Matches lib) (set_post lib)
  unfolding setopt set_post
  set_post-Keeps = record {
    kept = λ c h.
        (check_error-Keeps {I = Matches lib} _).kept _
          (setopt-Matches (httppost c.post) c (ground (arith, h.same_form)) h);
  }

  add_line-Keeps : (line : Bytes) → Keeps (Matches lib) (add_line lib line)
  unfolding add_line release reset
  add_line-Keeps line = record {
    kept = λ c h.
        (if-Keeps {I = Matches lib} (is_held (lib.pointer (slist_append c.headers line ∷ c.calls)))
            (pure-Keeps tt) (raise-Keeps (runtime_error no_curl_header))).kept
          _ (appended c h);
  }
    where
      appended :
          (c : Client)
          → Matches lib c
          → Matches lib (record c {
            headers = lib.pointer (slist_append c.headers line ∷ c.calls);
            calls = slist_append c.headers line ∷ c.calls;
          })
      appended c h = record {
        held = h.held;
        same_handle = h.same_handle;
        same_list = rw h.same_list (grown-owned c.headers _ (refused lib c.calls));
        same_form = h.same_form;
        right = rw (h.same_list, owned-is_list c.headers (refused lib c.calls)) h.right;
      }

  add_part-Keeps : (part : Part) → Keeps (Matches lib) (add_part lib part)
  unfolding add_part
  add_part-Keeps part = record {
    kept = λ c h.
        (if-Keeps {I = Matches lib} ((lib.form (formadd c.post c.last part ∷ c.calls)).0 == 0)
            (pure-Keeps tt) (raise-Keeps (runtime_error form_refused))).kept
          _ (added c h);
  }
    where
      added :
          (c : Client)
          → Matches lib c
          → Matches lib (record c {
            post = (lib.form (formadd c.post c.last part ∷ c.calls)).1;
            last = (lib.form (formadd c.post c.last part ∷ c.calls)).2;
            calls = formadd c.post c.last part ∷ c.calls;
          })
      added c h = record {
        held = h.held;
        same_handle = h.same_handle;
        same_list = h.same_list;
        same_form = refl;
        right = ground (arith, h.same_form, h.right);
      }

  either :
      (b : Bool) {c d : Client} → Matches lib c → Matches lib d → Matches lib (if b then c else d)
  either true h k = h
  either false h k = k

  hand_over-Matches :
      (pieces : List Piece) (c : Client)
      → Matches lib c
      → Matches lib (hand_over lib.write pieces c)
  unfolding hand_over
  hand_over-Matches [] c h = h
  hand_over-Matches (piece ∷ pieces) c h =
      either (count == piece.size * piece.nmemb) (hand_over-Matches pieces c' same) same
    where
      count : ℕ
      count = (curl_write lib.write piece c.response).0

      c' : Client
      c' = record c {
        response = (curl_write lib.write piece c.response).1;
        calls = handed piece.ptr (piece.size * piece.nmemb) count ∷ c.calls;
      }

      same : Matches lib c'
      same = record {
        held = h.held;
        same_handle = h.same_handle;
        same_list = h.same_list;
        same_form = h.same_form;
        right = h.right;
      }

  easy_transfer-Keeps : Keeps (Matches lib) (easy_transfer lib)
  unfolding easy_transfer
  easy_transfer-Keeps = record {
    kept =
        λ c h. hand_over-Matches (lib.pieces (easy_perform c.handle ∷ c.calls)) _ (performed c h);
  }
    where
      performed : (c : Client) → Matches lib c → Matches lib (record_call (easy_perform c.handle) c)
      performed c h = record {
        held = h.held;
        same_handle = h.same_handle;
        same_list = h.same_list;
        same_form = h.same_form;
        right = ground (arith, h.held, h.same_handle, h.right);
      }

  get_status-Keeps : Keeps (Matches lib) (get_status lib)
  unfolding get_status
  get_status-Keeps = record {
    kept = λ c h.
        (bind-Keeps {I = Matches lib} (check_error-Keeps (code c))
            (λ u. pure-Keeps (status c))).kept
          _ (asked c h);
  }
    where
      code : Client → ℕ
      code c = lib.code (easy_getinfo c.handle ∷ c.calls)

      status : Client → ℤ
      status c = lib.status (easy_getinfo c.handle ∷ c.calls)

      asked : (c : Client) → Matches lib c → Matches lib (record_call (easy_getinfo c.handle) c)
      asked c h = record {
        held = h.held;
        same_handle = h.same_handle;
        same_list = h.same_list;
        same_form = h.same_form;
        right = ground (arith, h.held, h.same_handle, h.right);
      }

  transfer-Keeps : (throw_exc : Bool) → Keeps (Matches lib) (transfer lib throw_exc)
  unfolding transfer
  transfer-Keeps throw_exc =
      search
        (
          plain, setopt-Keeps, check_error-Keeps, easy_transfer-Keeps, get_status-Keeps,
          plain_option,
        )
        depth 9

  run-Keeps : (m : Method) → Keeps (Matches lib) (run lib m)
  unfolding run perform perform_post_form perform_post done header
  run-Keeps (call_url text) = setopt-Keeps _ plain_option
  run-Keeps (call_timeout seconds) = setopt-Keeps _ plain_option
  run-Keeps (call_timeout_ms millis) = setopt-Keeps _ plain_option
  run-Keeps (call_setopt option value) = setopt-Keeps _ plain_option
  run-Keeps (call_header name value) = add_line-Keeps _
  run-Keeps (call_add_file name content_type buf) = add_part-Keeps _
  run-Keeps (call_add_param name value) = add_part-Keeps _
  run-Keeps (call_perform throw_exc) = search (plain, set_headers-Keeps, transfer-Keeps) depth 6
  run-Keeps (call_perform_post_form throw_exc) =
      search (plain, set_headers-Keeps, set_post-Keeps, transfer-Keeps) depth 6
  run-Keeps (call_perform_post buf throw_exc) =
      search (plain, setopt-Keeps, plain_option, transfer-Keeps) depth 6

  pub run_all-Keeps : (ms : List Method) → Keeps (Matches lib) (run_all lib ms)
  unfolding run_all
  run_all-Keeps [] = pure-Keeps tt
  run_all-Keeps (m ∷ ms) = bind-Keeps (run-Keeps m) (λ u. run_all-Keeps ms)

  pub init-Keeps : (single_threaded : Bool) → Keeps (Matches lib) (init lib single_threaded)
  unfolding init
  init-Keeps single_threaded = search (plain, setopt-Keeps, plain_option) depth 8
