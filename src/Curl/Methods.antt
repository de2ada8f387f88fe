-- ===== src/Curl/Methods.antt =====
-- The methods of `curl_wrapper` (src/curl_wrapper.hpp), over the calls of libcurl.
use libelliptics_proxy.Base.{
  ℕ, ◌%◌, ◌^◌, ℤ, pos, Bool, List, [], ◌∷◌, ◌++◌, ◌==◌, int_of_pattern, Bytes, length,
  if◌then◌else◌,
}
use libelliptics_proxy.Result.{Result, ok, throw, undefined, runtime_error, no_curl_header}
use libelliptics_proxy.Text.{c_string}
use libelliptics_proxy.Resource.{Ptr, null, is_held, release, reset}
use libelliptics_proxy.Curl.{
  CurlOption, nosignal, forbid_reuse, timeout, timeout_ms, url, postfields, httpheader, httppost,
  writedata, writefunction, postfieldsize, other, Part, file, param, Call, easy_init, easy_setopt,
  easy_perform, easy_getinfo, easy_cleanup, slist_append, slist_free_all, formadd, formfree,
  Libcurl, Client, C, pure, raise, record_call, hand_over, check_error, check_form_error, ◌>>=◌,
  ◌>>◌,
}

-- `resource_traits<curl_slist *>::destroy_resource` and `resource_traits<CURL *>::destroy_resource`.
abbrev pub free_lists : List Ptr → List Call → List Call
free_lists [] calls = calls
free_lists (p ∷ ps) calls = free_lists ps (slist_free_all p ∷ calls)

abbrev pub clean_up_handles : List Ptr → List Call → List Call
clean_up_handles [] calls = calls
clean_up_handles (p ∷ ps) calls = clean_up_handles ps (easy_cleanup p ∷ calls)

module _ (lib : Libcurl) where
  -- `curl_easy_setopt` on the handle, with its check.
  unfoldable pub setopt : CurlOption → C (Unit {0})
  setopt option c =
      let c' = record_call (easy_setopt c.handle option) c in check_error (lib.code c'.calls) c'

  abbrev pub set_url : Bytes → C (Unit {0})
  set_url text = setopt (url (c_string text))

  -- The argument is an `unsigned short`, or an `unsigned long` that becomes an `int`.
  abbrev pub set_timeout : ℕ → C (Unit {0})
  set_timeout seconds = setopt (timeout (pos (seconds % 2 ^ 16)))

  abbrev pub set_timeout_ms : ℕ → C (Unit {0})
  set_timeout_ms millis = setopt (timeout_ms (int_of_pattern (millis % 2 ^ 32)))

  -- `header(const char *)`: the list is released, and the one with the new line takes its place.
  unfoldable pub add_line : Bytes → C (Unit {0})
  unfolding release reset
  add_line line c =
      let (list, stays) = release c.headers in
      let c' = record_call (slist_append list line) (record c { headers = stays }) in
      let (headers, gone) = reset c'.headers (lib.pointer c'.calls) in
      let c'' = record c' { headers = headers; calls = free_lists gone c'.calls } in
      (if is_held headers then pure tt else raise (runtime_error no_curl_header)) c''

  -- `header(name, value)`.
  unfoldable pub header : Bytes → Bytes → C (Unit {0})
  unfolding add_line
  header name value = add_line (c_string (name ++ (0x3a ∷ 0x20 ∷ []) ++ value))

  -- `add_file` and `add_param`.
  unfoldable pub add_part : Part → C (Unit {0})
  add_part part c =
      let calls = formadd c.post c.last part ∷ c.calls in
      let (code, post, last) = lib.form calls in
      check_form_error code (record c { post = post; last = last; calls = calls })

  abbrev pub add_file : Bytes → Bytes → Bytes → C (Unit {0})
  add_file name content_type buf =
      add_part (file (c_string name) (c_string content_type) buf (length buf))

  abbrev pub add_param : Bytes → Bytes → C (Unit {0})
  add_param name value = add_part (param (c_string name) (c_string value))

  -- `curl_easy_perform` and what follows it: a transfer that failed throws, or its status is 0.
  unfoldable pub easy_transfer : C ℕ
  unfolding hand_over
  easy_transfer c =
      let c' = record_call (easy_perform c.handle) c in
      let c'' = hand_over lib.write (lib.pieces c'.calls) c' in (ok (lib.code c''.calls), c'')

  unfoldable pub get_status : C ℤ
  get_status c =
      let c' = record_call (easy_getinfo c.handle) c in
      (check_error (lib.code c'.calls) >> pure (lib.status c'.calls)) c'

  unfoldable pub transfer : Bool → C ℤ
  unfolding easy_transfer get_status
  transfer throw_exc = do
    setopt writedata
    setopt writefunction
    code ← easy_transfer
    if throw_exc then check_error code else pure tt
    if code == 0 then get_status else pure (pos 0)

  unfoldable pub set_headers : C (Unit {0})
  set_headers c = setopt (httpheader c.headers) c

  unfoldable pub set_post : C (Unit {0})
  set_post c = setopt (httppost c.post) c

  unfoldable pub perform : Bool → C ℤ
  unfolding setopt transfer set_headers
  perform throw_exc = do set_headers; transfer throw_exc

  -- `perform_post` of a form, and of a buffer.
  unfoldable pub perform_post_form : Bool → C ℤ
  unfolding setopt transfer set_headers set_post
  perform_post_form throw_exc = do set_headers; set_post; transfer throw_exc

  unfoldable pub perform_post : Bytes → Bool → C ℤ
  unfolding setopt transfer
  perform_post buf throw_exc = do
    setopt (postfields buf)
    setopt (postfieldsize (length buf))
    transfer throw_exc

  -- `init`, which does nothing for `single_threaded_threading_traits`.
  unfoldable pub init : Bool → C (Unit {0})
  unfolding setopt
  init single_threaded =
      if single_threaded
      then pure tt
      else do setopt (nosignal (pos 1)); setopt (forbid_reuse (pos 1))

  -- The handle and the members, before the body of the constructor.
  unfoldable pub fresh_client : List Call → Client
  fresh_client calls = record {
    handle = lib.pointer (easy_init ∷ calls);
    headers = null;
    post = null;
    last = null;
    response = [];
    calls = easy_init ∷ calls;
  }

  -- The destructors of the list of headers and, behind it, of the handle.
  unfoldable pub destroy_members : Client → Client
  unfolding reset
  destroy_members c =
      let (headers, lists) = reset c.headers null in
      let (handle, handles) = reset c.handle null in
      record c {
        headers = headers;
        handle = handle;
        calls = clean_up_handles handles (free_lists lists c.calls);
      }

  -- `~curl_wrapper`, and then the members.
  unfoldable pub destroy : Client → Client
  unfolding destroy_members
  destroy c = destroy_members (record_call (formfree c.post) c)

  -- The end of a scope, by how the constructor ended: one that throws has only its members destroyed.
  unfoldable pub close_scope : {A : Type 0} → C A → Result (Unit {0}) × Client → Result A × Client
  unfolding destroy_members destroy
  close_scope body (ok u, c) = ((body c).0, destroy (body c).1)
  close_scope body (throw e, c) = (throw e, destroy_members c)
  close_scope body (undefined, c) = (undefined, destroy_members c)

  -- A client as a local variable: it is constructed for a URL, used, and destroyed where its scope
  -- ends, with a value or with an exception.
  unfoldable pub with_client : {A : Type 0} → Bool → Bytes → C A → List Call → Result A × Client
  unfolding fresh_client init close_scope
  with_client single_threaded text body calls =
      close_scope body ((init single_threaded >> set_url text) (fresh_client calls))

-- The methods of a client, with their arguments.
pub data Method : Type 0 where
  call_url : Bytes → Method
  call_timeout call_timeout_ms : ℕ → Method
  call_setopt : ℕ → ℤ → Method
  call_header : Bytes → Bytes → Method
  call_add_file : Bytes → Bytes → Bytes → Method
  call_add_param : Bytes → Bytes → Method
  call_perform call_perform_post_form : Bool → Method
  call_perform_post : Bytes → Bool → Method

module _ (lib : Libcurl) where
  unfoldable pub done : {A : Type 0} → C A → C (Unit {0})
  done m = m >> pure tt

  unfoldable pub run : Method → C (Unit {0})
  unfolding setopt header add_part perform perform_post_form perform_post done
  run (call_url text) = set_url lib text
  run (call_timeout seconds) = set_timeout lib seconds
  run (call_timeout_ms millis) = set_timeout_ms lib millis
  run (call_setopt option value) = setopt lib (other option value)
  run (call_header name value) = header lib name value
  run (call_add_file name content_type buf) = add_file lib name content_type buf
  run (call_add_param name value) = add_param lib name value
  run (call_perform throw_exc) = done (perform lib throw_exc)
  run (call_perform_post_form throw_exc) = done (perform_post_form lib throw_exc)
  run (call_perform_post buf throw_exc) = done (perform_post lib buf throw_exc)

  unfoldable pub run_all : List Method → C (Unit {0})
  unfolding run
  run_all [] = pure tt
  run_all (m ∷ ms) = run m >> run_all ms
