-- ===== src/Public.antt =====
-- The public methods of `EllipticsProxy` (include/elliptics/proxy.hpp): the arguments that a call may
-- leave out, and their defaults. `garbage` is what the memory of a default key's column holds.
pub mod Addresses
use libelliptics_proxy.Base.{ℕ, ℤ, pos, Bool, false, List, [], Option, none, some, Bytes}
use libelliptics_proxy.OrderedMap.{Map}
use libelliptics_proxy.Ids.{Key, default_key}
use libelliptics_proxy.Lookup.{LookupResult}
use libelliptics_proxy.Config.{Remote}
use libelliptics_proxy.Metabase.{get_metabalancer_groups}
use libelliptics_proxy.Write.{write_impl}
use libelliptics_proxy.Read.{read_impl}
use libelliptics_proxy.Calls.{lookup_impl, remove_impl, range_get_impl, lookup_addr_impl}
use libelliptics_proxy.Bulk.{bulk_read_impl, bulk_write_impl}
use libelliptics_proxy.Proxy.{External, Settings, M}

-- An argument, or its default.
abbrev pub given {ℓ} : {A : Type ℓ} → A → Option A → A
given d none = d
given d (some a) = a

pub record WriteOptions : Type 0 where
  pub offset : Option ℕ
  pub size : Option ℕ
  pub cflags : Option ℕ
  pub ioflags : Option ℕ
  pub groups : Option (List ℤ)
  pub replication_count : Option ℕ
  pub embeds : Option (List Bytes)

pub record ReadOptions : Type 0 where
  pub offset : Option ℕ
  pub size : Option ℕ
  pub cflags : Option ℕ
  pub ioflags : Option ℕ
  pub groups : Option (List ℤ)
  pub latest : Option Bool
  pub embeded : Option Bool

pub record RangeOptions : Type 0 where
  pub limit_start : Option ℕ
  pub limit_num : Option ℕ
  pub cflags : Option ℕ
  pub ioflags : Option ℕ
  pub groups : Option (List ℤ)
  pub key : Option Key

module _ (x : External) (c : Settings) where
  unfoldable pub lookup : Key → Option (List ℤ) → M LookupResult
  lookup key groups = lookup_impl x c key (given [] groups)

  unfoldable pub write : Key → Bytes → WriteOptions → M (List LookupResult)
  write key content o = write_impl x c (record {
    key = key;
    content = content;
    offset = given 0 o.offset;
    size = given 0 o.size;
    cflags = given 0 o.cflags;
    ioflags = given 0 o.ioflags;
    groups = given [] o.groups;
    replication_count = given 0 o.replication_count;
    embeds = given [] o.embeds;
  })

  unfoldable pub read : Key → ReadOptions → M Bytes
  read key o =
      read_impl x c key (given 0 o.offset) (given 0 o.size) (given 0 o.cflags) (given 0 o.ioflags)
        (given [] o.groups) (given false o.latest) (given false o.embeded)

  unfoldable pub remove : Key → Option (List ℤ) → M (Unit {0})
  remove key groups = remove_impl x c key (given [] groups)

  unfoldable pub range_get : ℤ → Key → Key → RangeOptions → M (List Bytes)
  range_get garbage from to o =
      range_get_impl x c from to (given 0 o.cflags) (given 0 o.ioflags) (given 0 o.limit_start)
        (given 0 o.limit_num) (given [] o.groups)
        (given (default_key x.platform.id_size garbage) o.key)

  -- `cflags` is handed over and used nowhere.
  unfoldable pub bulk_read : ℤ → List Key → Option ℕ → Option (List ℤ) → M (Map Key Bytes)
  bulk_read garbage keys cflags groups = bulk_read_impl x garbage c keys (given [] groups)

  unfoldable pub lookup_addr : Key → Option (List ℤ) → M (List Remote)
  lookup_addr key groups = lookup_addr_impl x c key (given [] groups)

  unfoldable pub bulk_write :
      ℤ
      → List Key
      → List Bytes
      → Option ℕ
      → Option (List ℤ)
      → Option ℤ
      → M (Map Key (List LookupResult))
  bulk_write garbage keys contents cflags groups success_copies_num =
      bulk_write_impl x garbage c keys contents (given [] groups) (given (pos 0) success_copies_num)

  -- `size` and `key` are handed over and used nowhere.
  unfoldable pub get_metabalancer_groups_of : Option ℕ → Option ℕ → Option Key → M (List ℤ)
  get_metabalancer_groups_of count size key = get_metabalancer_groups x c (given 0 count)
