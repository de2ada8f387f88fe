-- ===== src/Upload/Sizes.antt =====
-- `write_helper_t::fix_size` (src/proxy.cpp) on the paths that `parse_lookup` builds.
use mathlib.Core.List.{append_assoc}
use libelliptics_proxy.Base.{
  ℕ, suc, ◌+◌, ◌≡◌, refl, sym, ap, ◌∙◌, ℤ, pos, ◌-ℤ◌, [], ◌∷◌, ◌++◌, arith, Bytes, length, take,
}
use libelliptics_proxy.Text.{Lacks, find_last-append, find_last-none}
use libelliptics_proxy.Lookup.{Platform, Header, eblob_path, base_name, colon, slash}
use libelliptics_proxy.Upload.{fix_path}

take_past : (xs ys : Bytes) (c : ℕ) → take (length xs + 1) (xs ++ c ∷ ys) ≡ xs ++ c ∷ []
take_past [] ys c = refl
take_past (x ∷ xs) ys c = rw next (ap (◌∷◌ x) (take_past xs ys c))
  where
    next : suc (length xs) + 1 ≡ suc (length xs + 1)
    next = omega arith

-- The text behind the last colon is replaced.
fix_path-append :
    (s xs ys : Bytes) → Lacks colon ys → fix_path s (xs ++ colon ∷ ys) ≡ xs ++ (colon ∷ s)
unfolding fix_path
fix_path-append s xs ys h =
    rw (find_last-append colon xs ys h, take_past xs ys colon) (append_assoc xs (colon ∷ []) s)

-- A path with no colon, such as the empty one of a proxy without eblob paths, is replaced whole.
pub fix_path_no_colon : (s path : Bytes) → Lacks colon path → fix_path s path ≡ s
unfolding fix_path
fix_path_no_colon s path h = rw (find_last-none colon path h) refl

-- The path of an eblob up to the colon in front of the size.
abbrev front : Platform → ℤ → ℕ → Bytes → Header → Bytes
front p base_port port name info =
    slash
    ∷ (p.print (pos port -ℤ base_port)
        ++ (slash ∷ (base_name p name ++ (colon ∷ p.print (pos info.offset)))))

eblob_path-front :
    (p : Platform) (base_port : ℤ) (port : ℕ) (name : Bytes) (info : Header)
    → eblob_path p base_port port name info
      ≡ front p base_port port name info ++ (colon ∷ p.print (pos info.size))
unfolding eblob_path
eblob_path-front p base_port port name info = simp append_assoc

-- Where the printed size of a record holds no colon, fixing the size of its eblob path gives the
-- path that the same record would have with that size: port, file name and offset stay.
pub fix_path-eblob_path :
    (p : Platform) (base_port : ℤ) (port : ℕ) (name : Bytes) (info : Header) (size : ℕ)
    → Lacks colon (p.print (pos info.size))
    → fix_path (p.print (pos size)) (eblob_path p base_port port name info)
      ≡ eblob_path p base_port port name (record info { size = size })
fix_path-eblob_path p base_port port name info size h =
    rw (eblob_path-front p base_port port name info) (
      fix_path-append (p.print (pos size)) (front p base_port port name info) _ h
      ∙ sym (eblob_path-front p base_port port name (record info { size = size })))
