-- ===== src/Write/Uploaded.antt =====
-- The inner `try` of `write_impl` (src/proxy.cpp) for a chunked upload: the chunks, the check of the
-- copies, and the removal from the groups that were missed.
use libelliptics_proxy.Base.{
  ℕ, ◌+◌, ◌-◌, ◌≤◌, ◌<◌, ◌≡◌, refl, ap, ◌∙◌, ◌⊎◌, inl, inr, ℤ, true, ◌==◌, List, [], ◌∷◌, ◌++◌, map,
  Bytes, length, arith, to_size, word, length-map, Bool-cases,
}
use libelliptics_proxy.Result.{ok}
use libelliptics_proxy.Sorting.{count}
use libelliptics_proxy.Ids.{DnetId}
use libelliptics_proxy.Lookup.{LookupResult}
use libelliptics_proxy.Upload.{WriteHelper, has_incomplete_groups, max_size}
use libelliptics_proxy.Proxy.{External, Settings, World, Event, bind_ok, ◌>>◌}
use libelliptics_proxy.Write.{Request, write_chunked, check_upload, clean_up, upload}
use libelliptics_proxy.Write.Pieces.{pieces, Covers, is_committed}
use libelliptics_proxy.Write.Rounds.{IsObliging}
use libelliptics_proxy.Write.Loop.{Reaches, Reaches-is_good}
use libelliptics_proxy.Write.Chunks.{sized, second_call, write_chunked-Uploads}
use libelliptics_proxy.Write.CleanUp.{clean_up_incomplete}

module _ (x : External) (c : Settings) (k : ℕ) (chunk : to_size c.chunk_size ≡ k) (s rc : ℤ)
    (node : IsObliging x c s rc) where
  -- The groups that the newest call of a record reached.
  abbrev pub reached : List Event → List ℤ
  reached es = map (λ (l : LookupResult). l.group) (node.results es)

  -- The calls behind an upload for the groups `desired`: none if it reached as many, and otherwise a
  -- removal from the groups that are wanted more often than they were reached.
  abbrev pub IsCleaned : Request → List ℤ → List ℤ → List Event → Type 0
  IsCleaned r desired got removed =
      ((length desired ≡ length got) × (removed ≡ []))
      ⊎ ((gs : List ℤ) × (removed ≡ Event.remove_name r.key.filename ∷ Event.set_groups gs ∷ [])
          × ((g : ℤ) → count g gs ≡ count g desired - count g got))

  clean_up_chunked :
      (r : Request) (h : WriteHelper) (es : List Event) (desired : List ℤ) (ret : List LookupResult)
      (w : World)
      → Reaches x c k chunk s rc node desired ret h es
      → length (reached es) ≤ length desired
      → length desired ≤ max_size
      → ((ds : List Event) → x.done ds ≡ ok tt)
      → (h' : WriteHelper) × (removed : List Event) × (clean_up x c r true h w
          ≡ (ok h', record w { trace = removed ++ w.trace }))
        × ((g : ℤ) → count g h'.upload_groups ≡ count g (reached es))
        × (h'.ret ≡ ret)
        × IsCleaned r desired (reached es) removed
  unfolding clean_up has_incomplete_groups
  clean_up_chunked r h es desired ret w left fewer small done =
      let sizes : length h.upload_groups ≡ length (reached es) = ap length left.reached in
      let wanted : length h.desired_groups ≡ length desired = ap length left.wanted in
      elim (Bool-cases (length h.desired_groups == length h.upload_groups)) [
        | inl e ↦ (
          h,
          [],
          rw e refl,
          λ g. ap (count g) left.reached,
          left.kept,
          inl (ground (arith, sizes, wanted, e), refl),
        )
        | inr e ↦
            let (gs, h', run, missing, same, kept) =
              clean_up_incomplete x c r h w (ground (arith, sizes, wanted, e)) (omega arith) done in
            (
              h',
              Event.remove_name r.key.filename ∷ Event.set_groups gs ∷ [],
              run,
              λ g. kept g ∙ ap (count g) left.reached,
              same ∙ left.kept,
              inr (gs, refl, λ g. missing g ∙ rw (left.wanted, left.reached) refl),
            )
      ]

  -- What a chunked upload has done behind the calls `before`: up to the call of `es` it has written
  -- pieces that cover the content, the last of which commits the object; then it has cleaned up, and
  -- the groups that it names are those the commit reached.
  pub record IsUploaded (r : Request) (content : Bytes) (desired : List ℤ)
      (before es removed : List Event) (ps : List (ℕ × Bytes)) (gs : List ℤ) : Type 0 where
    pub written : pieces es ≡ pieces before ++ ps
    pub covered : Covers content r.offset ps
    pub committed : is_committed es ≡ true
    pub named : (g : ℤ) → count g gs ≡ count g (reached es)
    pub cleaned : IsCleaned r desired (reached es) removed

  -- The results name no more groups than are wanted, and a vector holds these.
  pub record IsBounded (desired : List ℤ) : Type 0 where
    pub fewer : (es : List Event) → length (node.results es) ≤ length desired
    pub small : length desired ≤ max_size

  -- The chunks start at least one chunk before the end, and no offset wraps around.
  pub record IsCut (offset : ℕ) (content : Bytes) : Type 0 where
    pub some_size : 0 < k
    pub first_chunk : offset + k ≤ length content
    pub no_wrap : length content + k < word

  -- The results: those of the second call, with the size of the whole content in their paths.
  abbrev pub results_of : Request → Bytes → WriteHelper → List Event → List LookupResult
  results_of r content helper es =
      sized x c k chunk s rc node content
        (helper.ret ++ node.results (second_call x c k chunk s rc node r.key content r.offset es))

  pub upload_chunked :
      (r : Request) (lgroups : List ℤ) (id : DnetId) (content : Bytes) (helper : WriteHelper)
      (w : World)
      → helper.success_copies_num ≡ s
      → helper.replication_count ≡ rc
      → IsCut r.offset content
      → IsBounded helper.desired_groups
      → ((ds : List Event) → x.done ds ≡ ok tt)
      → (h : WriteHelper) × (es removed : List Event) × (ps : List (ℕ × Bytes)) × (upload x c r
            lgroups id content true helper w
          ≡ (ok h, record w { trace = removed ++ es }))
        × (h.ret ≡ results_of r content helper w.trace)
        × IsUploaded r content helper.desired_groups w.trace es removed ps h.upload_groups
  unfolding upload check_upload
  upload_chunked r lgroups id content helper w p q cut bounded done =
      let (h, es, ps, e, written, covered, committed, left) =
        write_chunked-Uploads x c k chunk s rc node r.key content r.offset helper w p q
          cut.some_size cut.first_chunk cut.no_wrap in
      let w' : World = record w { trace = es } in
      let fewer : length (reached es) ≤ length helper.desired_groups =
        omega
          (arith, bounded.fewer es, length-map (λ (l : LookupResult). l.group) (node.results es)) in
      let (h', removed, f, named, kept, cleaned) =
        clean_up_chunked r h es helper.desired_groups (results_of r content helper w.trace) w' left
          fewer bounded.small done in
      let good =
        Reaches-is_good x c k chunk s rc node helper.desired_groups
          (results_of r content helper w.trace) h es left in
      (
        h',
        es,
        removed,
        ps,
        bind_ok (write_chunked x c r.key content r.offset helper)
              (λ done. check_upload x c r lgroups done >> clean_up x c r true done) w w' h e
            ∙ rw (good, f) refl,
        kept,
        record {
          written = written;
          covered = covered;
          committed = committed;
          named = named;
          cleaned = cleaned;
        },
      )
