-- ===== src/Groups/Recorded.antt =====
-- The groups that `uploadMetaInfo` records and those that `getGroups` finds later (src/proxy.cpp).
use mathlib.Core.List.{Perm}
use libelliptics_proxy.Base.{
  ◌≡◌, refl, ◌∙◌, ℤ, pos, Bool, true, false, List, [], ◌∷◌, ◌++◌, Option, none, some, Bytes,
  eqb_bytes, eqb_bytes_self, eqb_ℤ, if◌then◌else◌,
}
use libelliptics_proxy.Result.{Result, ok, throw, undefined, no_meta_info}
use libelliptics_proxy.Ids.{Key}
use libelliptics_proxy.Metabase.{join_groups, meta_url, upload_meta_info}
use libelliptics_proxy.Metabase.MetaInfo.{IsTokenizer, IsPrinter, get_meta_info-upload}
use libelliptics_proxy.Groups.{has_meta_info, stored_groups, get_groups}
use libelliptics_proxy.Groups.Choice.{Permutes, get_groups_stored}
use libelliptics_proxy.Proxy.{External, Settings, World, Event, note, hand_on, require}

-- The body that a call posts to a URL.
abbrev pub posted : Bytes → Event → Option Bytes
posted url (Event.http_post u body) = if eqb_bytes u url then some body else none
posted url _ = none

abbrev pub or_before : Option Bytes → Option Bytes → Option Bytes
or_before (some body) before = some body
or_before none before = before

-- The newest of them.
abbrev pub last_posted : Bytes → List Event → Option Bytes
last_posted url [] = none
last_posted url (e ∷ es) = or_before (posted url e) (last_posted url es)

last_posted-append :
    (url : Bytes) (later es : List Event)
    → last_posted url later ≡ none
    → last_posted url (later ++ es) ≡ last_posted url es
last_posted-append url [] es h = refl
last_posted-append url (e ∷ later) es h =
    passed (posted url e) (last_posted url later) h (last_posted-append url later es)
  where
    passed :
        (o p : Option Bytes)
        → or_before o p ≡ none
        → (p ≡ none → last_posted url (later ++ es) ≡ last_posted url es)
        → or_before o (last_posted url (later ++ es)) ≡ last_posted url es
    passed (some body) p k f = absurd cc
    passed none p k f = f k

module _ (x : External) (c : Settings) where
  -- A server that hands out, for a key, what was posted for it last.
  abbrev pub IsStoring : Type 0
  IsStoring =
      (key : Key) (es : List Event) (body : Bytes)
      → last_posted (meta_url x c c.metabase_write_addr key) es ≡ some body
      → x.http (Event.http_get (meta_url x c c.metabase_read_addr key) ∷ es) ≡ ok (pos 200, body)

  -- The call that an upload makes.
  abbrev pub upload_call : List ℤ → Key → Event
  upload_call groups key =
      Event.http_post (meta_url x c c.metabase_write_addr key)
        (join_groups x.platform.print [] groups)

  pub upload_meta_info-trace :
      (groups : List ℤ) (key : Key) (w : World)
      → (upload_meta_info x c groups key w).1 ≡ note w (upload_call groups key)
  unfolding upload_meta_info
  upload_meta_info-trace groups key w = either (x.http (upload_call groups key ∷ w.trace))
    where
      tested :
          (b : Bool)
          → (require b no_meta_info (note w (upload_call groups key))).1
            ≡ note w (upload_call groups key)
      tested true = refl
      tested false = refl

      either :
          (r : Result (ℤ × Bytes))
          → (hand_on
              (λ a. require (eqb_ℤ a.0 (pos 200)) no_meta_info)
              (r, note w (upload_call groups key))).1
            ≡ note w (upload_call groups key)
      either (ok a) = tested (eqb_ℤ a.0 (pos 200))
      either (throw e) = refl
      either undefined = refl

  -- A later call on a key that names no groups goes to the groups that were recorded for the key, the
  -- first in front and the others in the order of a shuffle that keeps the elements: whatever calls lie
  -- in between, if none of them posts for the key, and the server hands out what was posted last.
  pub get_groups-upload_meta_info :
      (key : Key) (g : ℤ) (gs : List ℤ) (later : List Event) (w w1 : World)
      → has_meta_info x c ≡ true
      → IsTokenizer x.tokenize
      → IsPrinter x.platform.print x.platform.read_int
      → IsStoring
      → Permutes x c
      → last_posted (meta_url x c c.metabase_write_addr key) later ≡ none
      → w1.trace ≡ later ++ (upload_meta_info x c (g ∷ gs) key w).1.trace
      → (tail : List ℤ) × (w' : World) × (get_groups x c key [] (pos 0) w1 ≡ (ok (g ∷ tail), w'))
        × Perm tail gs
  unfolding stored_groups
  get_groups-upload_meta_info key g gs later w w1 on tokens printer storing shuffles quiet between =
      let url = meta_url x c c.metabase_write_addr key in
      let body = join_groups x.platform.print [] (g ∷ gs) in
      let newest : last_posted url w1.trace ≡ some body =
        rw (between, upload_meta_info-trace (g ∷ gs) key w)
          (last_posted-append url later (upload_call (g ∷ gs) key ∷ w.trace) quiet
            ∙ rw (eqb_bytes_self url) refl) in
      let answer =
        get_meta_info-upload x c key (g ∷ gs) w1 tokens printer
          (storing key w1.trace body newest) in
      get_groups_stored x c key g gs w1
        (note w1 (Event.http_get (meta_url x c c.metabase_read_addr key))) shuffles
        (rw (on, answer) refl)
