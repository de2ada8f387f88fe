-- ===== src/System/Writes.antt =====
-- `write_impl` (src/proxy.cpp) preserves a predicate that the calls for the weights preserve.
use libelliptics_proxy.Base.{ℕ, zero, suc, ◌≡◌, ℤ, Bool, true, List, Bytes}
use libelliptics_proxy.Ids.{DnetId, Key}
use libelliptics_proxy.Upload.{WriteHelper}
use libelliptics_proxy.Write.{
  Request, balanced_groups, after_silence, choose_groups, chunk_event, chunk_loop, write_chunked,
  identify_key, whole_write, write_whole, check_upload, clean_up, upload, write_meta, write_to,
  write_impl,
}
use libelliptics_proxy.Proxy.{External, Settings, World}
use libelliptics_proxy.System.Keeping.{
  is_quiet, Preserves, IsKept, tell-Preserves, ask-Preserves, rethrow_logged-Preserves,
  catching-Preserves, quiet-if, parts,
}
use libelliptics_proxy.System.Methods.{
  get_groups-Preserves, get_metabalancer_groups-Preserves, upload_meta_info-Preserves,
}

module _ {x : External} {c : Settings} {I : World → Type 0} (keep : IsKept x c I) where
  balanced_groups-Preserves :
      (r : Request) (n : ℕ) (lgroups : List ℤ) → Preserves I (balanced_groups x c r n lgroups)
  unfolding balanced_groups
  balanced_groups-Preserves r n lgroups =
      search (parts, get_metabalancer_groups-Preserves keep) depth 9

  after_silence-Preserves : (lgroups : List ℤ) → Preserves I (after_silence x c lgroups)
  unfolding after_silence
  after_silence-Preserves lgroups = search (parts, tell-Preserves keep) depth 9

  choose_groups-Preserves : (r : Request) (n : ℕ) → Preserves I (choose_groups x c r n)
  unfolding choose_groups
  choose_groups-Preserves r n =
      search
        (
          parts,
          catching-Preserves,
          get_groups-Preserves keep,
          balanced_groups-Preserves,
          after_silence-Preserves,
        )
        depth 12

  chunk_event-is_quiet :
      (key : Key) (content piece : Bytes) (offset : ℕ)
      → is_quiet (chunk_event x c key content piece offset) ≡ true
  unfolding chunk_event
  chunk_event-is_quiet key content piece offset = search quiet-if

  whole_write-is_quiet :
      (r : Request) (id : DnetId) (content : Bytes) → is_quiet (whole_write x c r id content) ≡ true
  unfolding whole_write
  whole_write-is_quiet r id content = search quiet-if depth 9

  chunk_loop-Preserves :
      (fuel : ℕ) (key : Key) (content : Bytes) (offset : ℕ) (first : Bool) (helper : WriteHelper)
      → Preserves I (chunk_loop x c fuel key content offset first helper)
  unfolding chunk_loop
  chunk_loop-Preserves zero key content offset first helper = search parts
  chunk_loop-Preserves (suc fuel) key content offset first helper =
      search
        (
          parts,
          tell-Preserves keep,
          ask-Preserves keep,
          chunk_event-is_quiet,
          chunk_loop-Preserves fuel,
        )
        depth 14

  write_chunked-Preserves :
      (key : Key) (content : Bytes) (offset : ℕ) (helper : WriteHelper)
      → Preserves I (write_chunked x c key content offset helper)
  unfolding write_chunked
  write_chunked-Preserves key content offset helper =
      search (parts, ask-Preserves keep, chunk_loop-Preserves) depth 14

  write_whole-Preserves :
      (r : Request) (id : DnetId) (content : Bytes) (helper : WriteHelper)
      → Preserves I (write_whole x c r id content helper)
  unfolding write_whole
  write_whole-Preserves r id content helper =
      search (parts, ask-Preserves keep, whole_write-is_quiet) depth 14

  check_upload-Preserves :
      (r : Request) (lgroups : List ℤ) (helper : WriteHelper)
      → Preserves I (check_upload x c r lgroups helper)
  unfolding check_upload
  check_upload-Preserves r lgroups helper =
      search (parts, tell-Preserves keep, ask-Preserves keep) depth 14

  clean_up-Preserves :
      (r : Request) (chunked : Bool) (helper : WriteHelper)
      → Preserves I (clean_up x c r chunked helper)
  unfolding clean_up
  clean_up-Preserves r chunked helper =
      search (parts, tell-Preserves keep, ask-Preserves keep) depth 14

  upload-Preserves :
      (r : Request) (lgroups : List ℤ) (id : DnetId) (content : Bytes) (chunked : Bool)
      (helper : WriteHelper)
      → Preserves I (upload x c r lgroups id content chunked helper)
  unfolding upload
  upload-Preserves r lgroups id content chunked helper =
      search
        (
          parts, write_chunked-Preserves, write_whole-Preserves, check_upload-Preserves,
          clean_up-Preserves,
        )
        depth 14

  write_meta-Preserves :
      (r : Request) (lgroups : List ℤ) (helper : WriteHelper)
      → Preserves I (write_meta x c r lgroups helper)
  unfolding write_meta
  write_meta-Preserves r lgroups helper =
      search (parts, tell-Preserves keep, ask-Preserves keep, upload_meta_info-Preserves keep) depth
        14

  identify_key-Preserves : (key : Key) → Preserves I (identify_key x c key)
  unfolding identify_key
  identify_key-Preserves key = search (parts, ask-Preserves keep) depth 9

  write_to-Preserves :
      (r : Request) (lgroups : List ℤ) (helper : WriteHelper)
      → Preserves I (write_to x c r lgroups helper)
  unfolding write_to
  write_to-Preserves r lgroups helper =
      search
        (
          parts,
          tell-Preserves keep,
          identify_key-Preserves,
          rethrow_logged-Preserves keep,
          upload-Preserves,
          write_meta-Preserves,
        )
        depth 14

  pub write_impl-Preserves : (r : Request) → Preserves I (write_impl x c r)
  unfolding write_impl
  write_impl-Preserves r =
      search
        (
          parts,
          tell-Preserves keep,
          ask-Preserves keep,
          rethrow_logged-Preserves keep,
          choose_groups-Preserves,
          write_to-Preserves,
        )
        depth 14
