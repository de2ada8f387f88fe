-- ===== src/Curl/Ledger.antt =====
-- What libcurl has to be given back: an account of its calls (src/curl_wrapper.hpp).
use libelliptics_proxy.Base.{
  arith, Bool-cases, inl, inr, refl, ◌≡◌, Bool, true, false, not, ◌&&◌, ◌||◌, List, [], ◌∷◌, ◌==◌,
  if◌then◌else◌,
}
use libelliptics_proxy.Resource.{Ptr, null, is_held}
use libelliptics_proxy.Curl.{
  CurlOption, httpheader, httppost, Call, easy_init, easy_setopt, easy_perform, easy_getinfo,
  easy_cleanup, slist_append, slist_free_all, formadd, formfree, handed, Libcurl,
}

-- What is open at libcurl, and whether a call has named what is not.
pub record Ledger : Type 0 where
  pub handle : Ptr
  pub lists : List Ptr
  pub form : Ptr
  pub misused : Bool

abbrev pub holds : Ptr → List Ptr → Bool
holds p [] = false
holds p (q ∷ qs) = (p == q) || holds p qs

abbrev pub take_out : Ptr → List Ptr → List Ptr
take_out p [] = []
take_out p (q ∷ qs) = let rest = take_out p qs in if p == q then qs else (q ∷ rest)

-- `NULL` is the empty list.
abbrev pub is_list : Ptr → List Ptr → Bool
is_list p ls = not (is_held p) || holds p ls

-- `curl_slist_append` that answers `q` for `p`: it takes the list over where it succeeds, and leaves
-- it to the caller where it fails.
abbrev pub grown : Ptr → Ptr → List Ptr → List Ptr
grown p q ls = if is_held q then (q ∷ (if is_held p then take_out p ls else ls)) else ls

-- The pointers among the options are those of the open list and form.
abbrev pub is_open : CurlOption → Ledger → Bool
is_open (httpheader p) l = is_list p l.lists
is_open (httppost p) l = p == l.form
is_open _ l = true

abbrev pub demand : Bool → Ledger → Ledger
demand b l = record l { misused = not b || l.misused }

-- What a call that has been answered does to the ledger, as libcurl documents it.
abbrev pub enter : Libcurl → Call → List Call → Ledger → Ledger
enter lib easy_init es l = demand (not (is_held l.handle)) (record l { handle = lib.pointer es })
enter lib (easy_setopt h option) es l = demand (is_held h && (h == l.handle) && is_open option l) l
enter lib (easy_perform h) es l = demand (is_held h && (h == l.handle)) l
enter lib (easy_getinfo h) es l = demand (is_held h && (h == l.handle)) l
enter lib (easy_cleanup h) es l = demand (is_held h && (h == l.handle)) (record l { handle = null })
enter lib (slist_append p line) es l =
    demand (is_list p l.lists) (record l { lists = grown p (lib.pointer es) l.lists })
enter lib (slist_free_all p) es l =
    demand (is_held p && holds p l.lists) (record l { lists = take_out p l.lists })
enter lib (formadd p last part) es l = demand (p == l.form) (record l { form = (lib.form es).1 })
enter lib (formfree p) es l = demand (p == l.form) (record l { form = null })
enter lib (handed ptr size count) es l = l

abbrev no_ledger : Ledger
no_ledger = record { handle = null; lists = []; form = null; misused = false }

abbrev pub audit : Libcurl → List Call → Ledger
audit lib [] = no_ledger
audit lib (e ∷ es) = enter lib e (e ∷ es) (audit lib es)

-- The list `p` in front of others, where it is one, and in front of others once libcurl has answered
-- `q` for a longer one: only a list that was refused is left.
abbrev pub owned : Ptr → List Ptr → List Ptr
owned p ls = if is_held p then (p ∷ ls) else ls

abbrev left_over : Ptr → Ptr → List Ptr → List Ptr
left_over p q ls = if is_held p && not (is_held q) then (p ∷ ls) else ls

-- The lists that libcurl refused to make longer, the last first.
abbrev pub refused : Libcurl → List Call → List Ptr
refused lib [] = []
refused lib (slist_append p line ∷ es) =
    left_over p (lib.pointer (slist_append p line ∷ es)) (refused lib es)
refused lib (e ∷ es) = refused lib es

pub eqb_self : (p : Ptr) → (p == p) ≡ true
eqb_self p = ground arith

pub owned-is_list : (p : Ptr) (ls : List Ptr) → is_list p (owned p ls) ≡ true
owned-is_list p ls = elim (Bool-cases (is_held p)) [
  | inl e ↦ rw (e, eqb_self p) refl
  | inr e ↦ rw e refl
]

pub take_out-owned : (p : Ptr) (ls : List Ptr) → is_held p ≡ true → take_out p (owned p ls) ≡ ls
take_out-owned p ls e = rw (e, eqb_self p) refl

pub grown-owned : (p q : Ptr) (ls : List Ptr) → grown p q (owned p ls) ≡ owned q (left_over p q ls)
grown-owned p q ls = elim (Bool-cases (is_held p)) [
  | inl e ↦ elim (Bool-cases (is_held q)) [
    | inl f ↦ rw (e, f, eqb_self p) refl
    | inr f ↦ rw (e, f) refl
  ]
  | inr e ↦ elim (Bool-cases (is_held q)) [ inl f ↦ rw (e, f) refl | inr f ↦ rw (e, f) refl ]
]

-- Nothing was misused, no handle and no form is open, and of the lists only those that libcurl
-- refused to make longer.
pub record Settled (lib : Libcurl) (calls : List Call) : Type 0 where
  pub no_handle : (audit lib calls).handle ≡ null
  pub no_list : (audit lib calls).lists ≡ refused lib calls
  pub no_form : (audit lib calls).form ≡ null
  pub right : (audit lib calls).misused ≡ false
