-- ===== src/Write/Pieces.antt =====
-- What a chunked upload (src/proxy.cpp) has written, piece by piece, and how pieces cover a content.
use libelliptics_proxy.Base.{
  ℕ, zero, suc, ◌+◌, ◌-◌, ◌≤◌, ◌≡◌, refl, sym, ap, ◌∙◌, Bool, true, false, List, [], ◌∷◌, ◌++◌,
  arith, Bytes, length, take, drop, take-append-drop, length-take, length-drop,
}
use libelliptics_proxy.Proxy.{Event}

-- Where a call writes into the object, and what.
abbrev pub piece : Event → List (ℕ × Bytes)
piece (Event.write_prepare key content offset size) = (offset, content) ∷ []
piece (Event.write_plain key content offset) = (offset, content) ∷ []
piece (Event.write_commit key content offset size) = (offset, content) ∷ []
piece _ = []

-- The pieces that a record of calls has written, the oldest first.
abbrev pub pieces : List Event → List (ℕ × Bytes)
pieces [] = []
pieces (e ∷ es) = pieces es ++ piece e

-- Pieces that follow one another from an offset on, with no gap and no overlap, and together make
-- up the content from there to its end.
abbrev pub Covers : Bytes → ℕ → List (ℕ × Bytes) → Type 0
Covers content offset [] = drop offset content ≡ []
Covers content offset ((o, b) ∷ ps) =
    (o ≡ offset)
    × (b ++ drop (offset + length b) content ≡ drop offset content)
    × Covers content (offset + length b) ps

-- The newest call commits the object.
abbrev pub is_committed : List Event → Bool
is_committed (Event.write_commit key content offset size ∷ es) = true
is_committed _ = false

pub drop_all : (n : ℕ) (content : Bytes) → length content ≤ n → drop n content ≡ []
drop_all zero [] h = refl
drop_all zero (y ∷ ys) h = absurd (omega arith)
drop_all (suc n) [] h = refl
drop_all (suc n) (y ∷ ys) h = drop_all n ys (omega arith)

pub drop-take :
    (n k : ℕ) (content : Bytes) → take k (drop n content) ++ drop (n + k) content ≡ drop n content
drop-take zero k content = rw zero_add (take-append-drop k content)
  where
    zero_add : 0 + k ≡ k
    zero_add = omega arith
drop-take (suc n) k [] = rw suc_add (take_nil k)
  where
    suc_add : suc n + k ≡ suc (n + k)
    suc_add = omega arith

    take_nil : (j : ℕ) → take {A = ℕ} j [] ++ [] ≡ []
    take_nil zero = refl
    take_nil (suc j) = refl
drop-take (suc n) k (y ∷ ys) = rw suc_add (drop-take n k ys)
  where
    suc_add : suc n + k ≡ suc (n + k)
    suc_add = omega arith

-- A chunk in front of pieces that cover what lies a chunk further on.
pub Covers-cons :
    (content : Bytes) (offset k : ℕ) (ps : List (ℕ × Bytes))
    → offset + k ≤ length content
    → Covers content (offset + k) ps
    → Covers content offset ((offset, take k (drop offset content)) ∷ ps)
Covers-cons content offset k ps h cs =
    let size : length (take k (drop offset content)) ≡ k =
      omega (arith, length-take k (drop offset content), length-drop offset content) in
    (refl, rw size (drop-take offset k content), rw size cs)

-- The last chunk, which may be short.
pub Covers-last :
    (content : Bytes) (offset k : ℕ)
    → offset ≤ length content
    → length content ≤ offset + k
    → Covers content offset ((offset, take k (drop offset content)) ∷ [])
Covers-last content offset k h l =
    let size : length (take k (drop offset content)) ≡ length content - offset =
      omega (arith, length-take k (drop offset content), length-drop offset content) in
    let last : drop (offset + length (take k (drop offset content))) content ≡ [] =
      drop_all _ content (omega (arith, size)) in
    let end : drop (offset + k) content ≡ [] = drop_all _ content l in
    (
      refl,
      ap (◌++◌ (take k (drop offset content))) (last ∙ sym end) ∙ drop-take offset k content,
      last,
    )
