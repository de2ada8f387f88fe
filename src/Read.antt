-- ===== src/Read.antt =====
-- `EllipticsProxy::read_impl` of src/proxy.cpp, and the walk along embedded objects in it.
pub mod Embeds
pub mod Fuel
use libelliptics_proxy.Base.{
  ℕ, zero, suc, ◌+◌, ◌-◌, ◌%◌, ◌^◌, ℤ, pos, Bool, true, false, List, [], ◌∷◌, ltb, ◌==◌, word,
  Bytes, length, take, drop, if◌then◌else◌,
}
use libelliptics_proxy.Result.{
  Exception, Result, ok, throw, undefined, runtime_error, invalid_embed, ◌>>=◌ as ◌then◌,
}
use libelliptics_proxy.Text.{substr}
use libelliptics_proxy.Ids.{Key}
use libelliptics_proxy.Groups.{get_groups}
use libelliptics_proxy.Proxy.{
  External, Embed, Settings, World, Event, M, pure, lift, ask, tell, rethrow_logged, ◌>>=◌, ◌>>◌,
}

-- `DNET_PROXY_EMBED_DATA` and `sizeof(struct dnet_common_embed)`.
abbrev pub embed_data : ℕ
embed_data = 1

abbrev pub embed_size : ℕ
embed_size = 16

-- `std::string::npos` as a count.
abbrev pub npos : ℕ
npos = word - 1

module _ (x : External) where
  -- The header at an offset, which is converted before anything is tested. The conversion in place is
  -- not written back: the loop reads a header once, but where a size wraps around.
  unfoldable pub convert_embedded : Bytes → ℕ → Result Embed
  convert_embedded result offset =
      if ltb (length result) (offset + embed_size)
      then undefined
      else ok (x.read_embed (take embed_size (drop offset result)))

  -- The loop on `size` and `offset`, which wrap around; it ends in the offset of the data. An object
  -- whose size does not wrap moves the offset on by its header at least, so for these the length is
  -- fuel enough; `unended` is what stands for a loop that the fuel does not bring to an end.
  unfoldable pub embed_loop : Result ℕ → ℕ → Bytes → ℕ → ℕ → Result ℕ
  embed_loop unended zero result size offset = unended
  embed_loop unended (suc fuel) result size offset =
      let round : Result ℕ = elim (convert_embedded result offset) [
        | throw e ↦ throw e
        | undefined ↦ undefined
        | ok e ↦
            let behind = (offset + embed_size) % word in
            let left = (size + word - embed_size) % word in
            let next =
              embed_loop unended fuel result ((left + word - e.size) % word)
                ((behind + e.size) % word) in
            if ltb size embed_size
            then throw (runtime_error invalid_embed)
            else if ltb left ((e.size + embed_size) % word)
            then ok behind
            else if e.type == embed_data
            then ok behind
            else next
      ] in
      if size == 0 then ok offset else round

  -- The text from the data on.
  unfoldable pub read_embedded : Bytes → Result Bytes
  read_embedded result =
      elim (embed_loop undefined (suc (length result)) result (length result) 0) [
        | ok offset ↦ substr result offset npos
        | throw e ↦ throw e
        | undefined ↦ undefined
      ]

  unfoldable pub read_impl : Settings → Key → ℕ → ℕ → ℕ → ℕ → List ℤ → Bool → Bool → M Bytes
  read_impl c key offset size cflags ioflags groups latest embeded = do
    tell Event.open_session
    lgroups ← get_groups x c key groups (pos 0)
    tell (Event.set_cflags cflags)
    tell (Event.set_ioflags ioflags)
    rethrow_logged do
      tell (Event.set_groups lgroups)
      result ← ask x.text (
          if latest
          then Event.read_latest key offset size
          else Event.read_data_wait key offset size)
      if embeded then lift (read_embedded result) else pure result
