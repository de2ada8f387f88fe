-- ===== src/Metabase/MetaInfo.antt =====
-- The text of the groups that `uploadMetaInfo` sends and `getMetaInfo` reads (src/proxy.cpp).
use mathlib.Core.List.{append_assoc, append-nil}
use libelliptics_proxy.Base.{
  ℕ, ◌≡◌, ◌≢◌, refl, sym, ◌∙◌, ℤ, pos, false, List, [], ◌∷◌, ◌++◌, Option, some, arith, Bytes,
  is_empty,
}
use libelliptics_proxy.Result.{ok}
use libelliptics_proxy.Ids.{Key}
use libelliptics_proxy.Text.{Lacks}
use libelliptics_proxy.Lookup.{colon}
use libelliptics_proxy.Metabase.{join_groups, read_groups, get_meta_info, meta_url}
use libelliptics_proxy.Proxy.{External, Settings, World, Event, note}

-- What boost documents of a tokenizer at one separator: it yields the pieces that are not empty.
pub record IsTokenizer (tokenize : ℕ → Bytes → List Bytes) : Type 0 where
  pub nothing : (c : ℕ) → tokenize c [] ≡ []
  pub last : (c : ℕ) (t : Bytes) → t ≢ [] → Lacks c t → tokenize c t ≡ t ∷ []
  pub next :
      (c : ℕ) (t rest : Bytes)
      → t ≢ []
      → Lacks c t
      → tokenize c (t ++ (c ∷ rest)) ≡ t ∷ tokenize c rest

-- What boost documents of `lexical_cast` between `int` and text, and the form of a number.
pub record IsPrinter (print : ℤ → Bytes) (read : Bytes → Option ℤ) : Type 0 where
  pub some_text : (g : ℤ) → print g ≢ []
  pub no_colon : (g : ℤ) → Lacks colon (print g)
  pub reads : (g : ℤ) → read (print g) ≡ some g

-- The groups behind a first one, each with its colon.
abbrev behind : (ℤ → Bytes) → List ℤ → Bytes
behind print [] = []
behind print (g ∷ gs) = colon ∷ (print g ++ behind print gs)

is_empty-append : (xs ys : Bytes) → is_empty xs ≡ false → is_empty (xs ++ ys) ≡ false
is_empty-append [] ys h = ground arith
is_empty-append (x ∷ xs) ys h = refl

join_groups-behind :
    (print : ℤ → Bytes) (acc : Bytes) (gs : List ℤ)
    → is_empty acc ≡ false
    → join_groups print acc gs ≡ acc ++ behind print gs
unfolding join_groups
join_groups-behind print acc [] h = sym (append-nil acc)
join_groups-behind print acc (g ∷ gs) h =
    rw (h, append_assoc acc (colon ∷ []) (print g))
      (join_groups-behind print (acc ++ (colon ∷ print g)) gs (is_empty-append acc _ h)
        ∙ append_assoc acc (colon ∷ print g) (behind print gs))

not_empty : (t : Bytes) → t ≢ [] → is_empty t ≡ false
not_empty [] h = absurd (h refl)
not_empty (x ∷ t) h = refl

-- What is sent is the first group, and each other one behind a colon.
join_groups-cons :
    (print : ℤ → Bytes) (g : ℤ) (gs : List ℤ)
    → print g ≢ []
    → join_groups print [] (g ∷ gs) ≡ print g ++ behind print gs
unfolding join_groups
join_groups-cons print g gs h = (join_groups-behind print (print g) gs (not_empty (print g) h))

module _ (tokenize : ℕ → Bytes → List Bytes) (print : ℤ → Bytes) (read : Bytes → Option ℤ)
    (tokens : IsTokenizer tokenize) (printer : IsPrinter print read) where
  read_groups_first :
      (g : ℤ) (gs : List ℤ)
      → read_groups read (tokenize colon (print g ++ behind print gs)) ≡ ok (g ∷ gs)
  unfolding read_groups
  read_groups_first g [] =
      rw
        (
          append-nil (print g),
          tokens.last colon (print g) (printer.some_text g) (printer.no_colon g),
          read_groups,
          printer.reads g,
        )
        refl
  read_groups_first g (h ∷ gs) =
      rw
        (
          tokens.next colon (print g) (print h ++ behind print gs) (printer.some_text g)
              (printer.no_colon g),
          read_groups,
          printer.reads g,
          read_groups_first h gs,
        )
        refl

  read_groups-join_groups :
      (gs : List ℤ) → read_groups read (tokenize colon (join_groups print [] gs)) ≡ ok gs
  unfolding read_groups join_groups
  read_groups-join_groups [] = rw (tokens.nothing colon) refl
  read_groups-join_groups (g ∷ gs) =
      rw (join_groups-cons print g gs (printer.some_text g)) (read_groups_first g gs)

-- Where the server answers a request for a key with the body that an upload of groups for that key
-- posts, the request gives these groups back, in their order. The tokenizer yields the pieces
-- between colons that are not empty, and a printed number is some text with no colon that is read
-- back.
pub get_meta_info-upload :
    (x : External) (c : Settings) (key : Key) (groups : List ℤ) (w : World)
    → IsTokenizer x.tokenize
    → IsPrinter x.platform.print x.platform.read_int
    → x.http (Event.http_get (meta_url x c c.metabase_read_addr key) ∷ w.trace)
      ≡ ok (pos 200, join_groups x.platform.print [] groups)
    → get_meta_info x c key w
      ≡ (ok groups, note w (Event.http_get (meta_url x c c.metabase_read_addr key)))
unfolding get_meta_info
get_meta_info-upload x c key groups w tokens printer h =
    rw
      (
        h,
        read_groups-join_groups x.tokenize x.platform.print x.platform.read_int tokens printer
            groups,
      )
      refl
