-- ===== src/Upload.antt =====
-- The upload policy and `write_helper_t` of src/proxy.cpp. A policy is an `int`, and the functions
-- take it as a `size_t`, to which the negative constants of `SUCCESS_COPIES_TYPE` are converted too.
pub mod Policy
pub mod Incomplete
pub mod Sizes
use libelliptics_proxy.Base.{
  ℕ, ◌+◌, ◌-◌, ◌/◌, ◌%◌, ◌^◌, ℤ, pos, negsuc, to_size, word, Bool, not, List, [], ◌++◌, map, leb,
  ltb, ◌==◌, Bytes, length, take, if◌then◌else◌,
}
use libelliptics_proxy.Result.{Result, ok, throw, length_error}
use libelliptics_proxy.Sorting.{sort, set_difference}
use libelliptics_proxy.Text.{find_last, past}
use libelliptics_proxy.Lookup.{LookupResult, colon}

-- `SUCCESS_COPIES_TYPE__ANY`, `__QUORUM` and `__ALL`.
abbrev pub copies_any : ℤ
copies_any = negsuc 0

abbrev pub copies_quorum : ℤ
copies_quorum = negsuc 1

abbrev pub copies_all : ℤ
copies_all = negsuc 2

unfoldable pub uploads_need : ℕ → ℕ → ℕ
unfolding to_size
uploads_need success_copies_num replication_count =
    if success_copies_num == to_size copies_any
    then 1
    else if success_copies_num == to_size copies_quorum
    then replication_count / 2 + 1
    else if success_copies_num == to_size copies_all
    then replication_count
    else replication_count

unfoldable pub upload_is_good : ℕ → ℕ → ℕ → Bool
unfolding to_size
upload_is_good success_copies_num replication_count size =
    if success_copies_num == to_size copies_any
    then leb 1 size
    else if success_copies_num == to_size copies_quorum
    then leb (replication_count / 2 + 1) size
    else if success_copies_num == to_size copies_all
    then size == replication_count
    else size == success_copies_num

pub record WriteHelper : Type 0 where
  pub success_copies_num : ℤ
  pub replication_count : ℤ
  pub ret : List LookupResult
  pub desired_groups : List ℤ
  pub upload_groups : List ℤ

-- The constructor.
unfoldable pub write_helper : ℤ → ℤ → List ℤ → WriteHelper
write_helper success_copies_num replication_count desired_groups = record {
  success_copies_num = success_copies_num;
  replication_count = replication_count;
  ret = [];
  desired_groups = desired_groups;
  upload_groups = [];
}

unfoldable pub update_lookup : WriteHelper → List LookupResult → Bool → WriteHelper
update_lookup h tmp update_ret = record h {
  ret = if update_ret then h.ret ++ tmp else h.ret;
  upload_groups = map (λ (l : LookupResult). l.group) tmp;
}

-- What `fix_size` does to one path: the text behind the last colon gives way to `str_size`.
unfoldable pub fix_path : Bytes → Bytes → Bytes
unfolding find_last
fix_path str_size path = take (past (find_last (λ c. c == colon) path)) path ++ str_size

unfoldable pub fix_size : WriteHelper → Bytes → WriteHelper
unfolding fix_path
fix_size h str_size = record h {
  ret = map (λ (l : LookupResult). record l { path = fix_path str_size l.path }) h.ret;
}

unfoldable pub helper_is_good : WriteHelper → Bool
unfolding upload_is_good to_size
helper_is_good h =
    upload_is_good (to_size h.success_copies_num) (to_size h.replication_count)
      (length h.upload_groups)

unfoldable pub has_incomplete_groups : WriteHelper → Bool
has_incomplete_groups h = not (length h.desired_groups == length h.upload_groups)

-- `max_size()` of a vector of `int`, as libstdc++ has it.
abbrev pub max_size : ℕ
max_size = 2 ^ 62 - 1

-- The reservation subtracts the sizes as `size_t`s; the vectors are sorted in place.
unfoldable pub get_incomplete_groups : WriteHelper → Result (List ℤ × WriteHelper)
get_incomplete_groups h =
    let room = (length h.desired_groups + word - length h.upload_groups) % word in
    let desired = sort h.desired_groups in
    let uploaded = sort h.upload_groups in
    if ltb max_size room
    then throw length_error
    else ok (
      set_difference desired uploaded,
      record h { desired_groups = desired; upload_groups = uploaded },
    )
