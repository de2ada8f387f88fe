-- ===== src/Curl/Sending.antt =====
-- What libcurl sends, as it documents its calls, and the requests of a proxy against it
-- (src/curl_wrapper.hpp, src/proxy.cpp).
use mathlib.Core.List.{append_assoc, append-nil}
use libelliptics_proxy.Base.{
  ℕ, ◌*◌, ◌%◌, ◌<◌, ◌≡◌, refl, take_all, ℤ, pos, true, List, [], ◌∷◌, ◌++◌, Option, none, some,
  ◌==◌, word, Bytes, length, take, arith, if◌then◌else◌, All,
}
use libelliptics_proxy.Result.{ok}
use libelliptics_proxy.Resource.{Ptr, null, is_held, reset, release}
use libelliptics_proxy.Curl.{
  CurlOption, timeout, url, postfields, httpheader, postfieldsize, Call, easy_init, easy_setopt,
  easy_perform, easy_getinfo, easy_cleanup, slist_free_all, formadd, formfree, slist_append, Piece,
  Libcurl, Client, record_call, hand_over, curl_write, handed, writedata, writefunction,
}
use libelliptics_proxy.Curl.Methods.{setopt, add_line, easy_transfer, get_status, transfer}

-- The request of a transfer, as far as the proxy sets it.
pub record Sent : Type 0 where
  pub url : Bytes
  pub headers : List Bytes
  pub timeout : ℤ
  pub body : Option Bytes

abbrev pub nothing_set : Sent
nothing_set = record { url = []; headers = []; timeout = pos 0; body = none }

module _ (pointer : List Call → Ptr) where
  -- The lines of a list, as its calls made it.
  abbrev pub lines : List Call → Ptr → List Bytes
  lines [] p = []
  lines (slist_append q line ∷ es) p =
      let before = lines es q in
      let others = lines es p in
      if p == pointer (slist_append q line ∷ es) then before ++ (line ∷ []) else others
  lines (e ∷ es) p = lines es p

  -- An option in force.
  abbrev pub set : CurlOption → List Call → Sent → Sent
  set (url text) es s = record s { url = text }
  set (timeout t) es s = record s { timeout = t }
  set (httpheader p) es s = record s { headers = if is_held p then lines es p else [] }
  set (postfields bytes) es s = record s { body = some bytes }
  set (postfieldsize n) es s = record s {
    body = elim s.body [ none ↦ none | some bytes ↦ some (take n bytes) ];
  }
  set _ es s = s

  -- The options in force for the newest handle.
  abbrev pub in_force : List Call → Sent
  in_force [] = nothing_set
  in_force (easy_init ∷ es) = nothing_set
  in_force (easy_setopt h option ∷ es) = set option es (in_force es)
  in_force (e ∷ es) = in_force es

  -- The requests that were sent, the newest first.
  abbrev pub requests : List Call → List Sent
  requests [] = []
  requests (easy_perform h ∷ es) = in_force es ∷ requests es
  requests (e ∷ es) = requests es

abbrev pub content : List Piece → Bytes
content [] = []
content (piece ∷ pieces) = piece.ptr ++ content pieces

-- The write function's calls.
abbrev pub notes : List Piece → List Call → List Call
notes [] es = es
notes (p ∷ ps) es = notes ps (handed p.ptr (p.size * p.nmemb) (p.size * p.nmemb) ∷ es)

module _ (lib : Libcurl) where
  -- A libcurl that does what it is asked to do, and a server that answers the requests.
  pub record Serves (server : List Sent → ℤ × Bytes) : Type 0 where
    pub made : (es : List Call) → is_held (lib.pointer es) ≡ true
    pub granted : (es : List Call) → lib.code es ≡ 0
    pub written : (stream bytes : Bytes) → lib.write stream bytes ≡ (stream ++ bytes, true)
    pub whole :
        (es : List Call)
        → All (λ p. (p.size * p.nmemb ≡ length p.ptr) × (length p.ptr < word)) (lib.pieces es)
    pub answered :
        (h : Ptr) (es : List Call)
        → content (lib.pieces (easy_perform h ∷ es))
          ≡ (server (requests lib.pointer (easy_perform h ∷ es))).1
    pub judged :
        (h : Ptr) (es : List Call)
        → lib.status (easy_getinfo h ∷ es) ≡ (server (requests lib.pointer es)).0

  pub requests-notes :
      (ps : List Piece) (es : List Call)
      → requests lib.pointer (notes ps es) ≡ requests lib.pointer es
  requests-notes [] es = refl
  requests-notes (p ∷ ps) es = requests-notes ps _

  module _ (server : List Sent → ℤ × Bytes) (s : Serves server) where
    pub self : (n : ℕ) → (n == n) ≡ true
    self n = ground arith

    pub setopt_granted :
        (option : CurlOption) (c : Client)
        → setopt lib option c ≡ (ok tt, record_call (easy_setopt c.handle option) c)
    unfolding setopt
    setopt_granted option c = rw (s.granted (easy_setopt c.handle option ∷ c.calls)) refl

    pub add_line_granted :
        (line : Bytes) (c : Client)
        → add_line lib line c ≡ (
          ok tt,
          record c {
            headers = lib.pointer (slist_append c.headers line ∷ c.calls);
            calls = slist_append c.headers line ∷ c.calls;
          },
        )
    unfolding add_line release reset
    add_line_granted line c = rw (s.made (slist_append c.headers line ∷ c.calls)) refl

    hand_over_granted :
        (pieces : List Piece) (c : Client)
        → All (λ p. (p.size * p.nmemb ≡ length p.ptr) × (length p.ptr < word)) pieces
        → hand_over lib.write pieces c
          ≡ record c { response = c.response ++ content pieces; calls = notes pieces c.calls }
    unfolding hand_over curl_write
    hand_over_granted [] c h = rw (append-nil c.response) refl
    hand_over_granted (p ∷ ps) c h =
        rw
          (
            fits,
            take_all (p.size * p.nmemb) p.ptr (omega (arith, h.0.0)),
            s.written c.response p.ptr,
            self (p.size * p.nmemb),
            hand_over_granted ps
                (record c {
                  response = c.response ++ p.ptr;
                  calls = handed p.ptr (p.size * p.nmemb) (p.size * p.nmemb) ∷ c.calls;
                })
                h.1,
            append_assoc c.response p.ptr (content ps),
          )
          refl
      where
        fits : p.size * p.nmemb % word ≡ p.size * p.nmemb
        fits = omega (arith, h.0.0, h.0.1)

    -- The calls of a transfer, and those up to the transfer itself.
    abbrev pub performed : Client → List Call
    performed c =
        easy_perform c.handle
        ∷ (easy_setopt c.handle writefunction ∷ (easy_setopt c.handle writedata ∷ c.calls))

    abbrev pub transferred : Client → List Call
    transferred c = easy_getinfo c.handle ∷ notes (lib.pieces (performed c)) (performed c)

    transfer_granted :
        (c : Client)
        → transfer lib true c ≡ (
          ok (lib.status (transferred c)),
          record c {
            response = c.response ++ content (lib.pieces (performed c));
            calls = transferred c;
          },
        )
    unfolding transfer get_status easy_transfer
    transfer_granted c =
        rw
          (
            setopt_granted writedata c,
            setopt_granted writefunction (record_call (easy_setopt c.handle writedata) c),
            hand_over_granted (lib.pieces (performed c)) (record c { calls = performed c })
                (s.whole (performed c)),
            s.granted (notes (lib.pieces (performed c)) (performed c)),
            s.granted (transferred c),
          )
          refl

    -- What a transfer sends is what is in force, and what it brings is the server's answer.
    pub served :
        (c : Client)
        → transfer lib true c ≡ (
          ok (server (in_force lib.pointer c.calls ∷ requests lib.pointer c.calls)).0,
          record c {
            response =
                c.response
                ++ (server (in_force lib.pointer c.calls ∷ requests lib.pointer c.calls)).1;
            calls = transferred c;
          },
        )
    served c =
        rw
          (
            transfer_granted c,
            s.judged c.handle (notes (lib.pieces (performed c)) (performed c)),
            requests-notes (lib.pieces (performed c)) (performed c),
            s.answered c.handle
                (easy_setopt c.handle writefunction ∷ (easy_setopt c.handle writedata ∷ c.calls)),
          )
          refl

    pub requests-transferred :
        (c : Client)
        → requests lib.pointer (transferred c)
          ≡ in_force lib.pointer c.calls ∷ requests lib.pointer c.calls
    requests-transferred c = requests-notes (lib.pieces (performed c)) (performed c)

    pub lines-null : (es : List Call) → lines lib.pointer es null ≡ []
    lines-null [] = refl
    lines-null (slist_append q line ∷ es) =
        ground (arith, lines-null es, s.made (slist_append q line ∷ es))
    lines-null (easy_init ∷ es) = lines-null es
    lines-null (easy_setopt h option ∷ es) = lines-null es
    lines-null (easy_perform h ∷ es) = lines-null es
    lines-null (easy_getinfo h ∷ es) = lines-null es
    lines-null (easy_cleanup h ∷ es) = lines-null es
    lines-null (slist_free_all q ∷ es) = lines-null es
    lines-null (formadd p last part ∷ es) = lines-null es
    lines-null (formfree p ∷ es) = lines-null es
    lines-null (handed ptr size count ∷ es) = lines-null es
