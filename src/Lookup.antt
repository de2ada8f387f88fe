-- ===== src/Lookup.antt =====
-- `EllipticsProxy::parse_lookup` of src/proxy.cpp: the answer of a lookup or a write as a list of
-- `LookupResult`s. What belongs to the elliptics headers, to the resolver and to boost is the
-- parameter `Platform`.
pub mod Parse
pub mod Fuel
use libelliptics_proxy.Base.{
  ℕ, zero, suc, ◌+◌, ◌-◌, ◌%◌, ◌^◌, ℤ, pos, ◌-ℤ◌, Bool, true, false, ◌||◌, ◌==◌, List, [], ◌∷◌,
  ◌++◌, Option, none, some, ltb, word, Bytes, length, take, drop, if◌then◌else◌,
}
use libelliptics_proxy.Result.{
  Result, ok, throw, undefined, runtime_error, no_lookup_name, bad_lexical_cast, ◌>>=◌,
}
use libelliptics_proxy.Text.{find_last, past, c_string}
use libelliptics_proxy.Ids.{DnetId}

-- What `parse_lookup` reads from the structures in front of a path, the `dnet_file_info` converted
-- and its `flen` as a `size_t`.
pub record Header : Type 0 where
  pub id : DnetId
  pub addr : Bytes
  pub flen : ℕ
  pub offset : ℕ
  pub size : ℕ

-- The sizes of the structures, their fields, `getnameinfo` (`none` if it fails),
-- `dnet_server_convert_port` and `boost::lexical_cast` from and to text.
pub record Platform : Type 0 where
  pub id_size : ℕ
  pub addr_size : ℕ
  pub cmd_size : ℕ
  pub addr_attr_size : ℕ
  pub file_info_size : ℕ
  pub header : Bytes → Header
  pub getnameinfo : Bytes → Option Bytes
  pub server_port : Bytes → ℕ
  pub print : ℤ → Bytes
  pub read_int : Bytes → Option ℤ

pub record LookupResult : Type 0 where
  pub hostname : Bytes
  pub port : ℕ
  pub path : Bytes
  pub group : ℤ
  pub id : DnetId

abbrev pub slash : ℕ
slash = 0x2f

abbrev pub backslash : ℕ
backslash = 0x5c

abbrev pub colon : ℕ
colon = 0x3a

module _ (p : Platform) where
  abbrev pub min_size : ℕ
  min_size = p.addr_size + p.cmd_size + p.addr_attr_size + p.file_info_size

  -- The file name behind the last slash of either kind.
  unfoldable pub base_name : Bytes → Bytes
  unfolding find_last
  base_name name = drop (past (find_last (λ c. (c == slash) || (c == backslash)) name)) name

  -- The path of an eblob: directory by port, file name, offset and size.
  unfoldable pub eblob_path : ℤ → ℕ → Bytes → Header → Bytes
  unfolding base_name ◌-ℤ◌
  eblob_path base_port port name info =
      slash
      ∷ (p.print (pos port -ℤ base_port)
          ++ (slash
              ∷ (base_name name
                  ++ (colon ∷ (p.print (pos info.offset) ++ (colon ∷ p.print (pos info.size)))))))

  -- The result that one record makes, from its fields, its path and the host of its address.
  unfoldable pub make_result : ℤ → Bool → Header → Bytes → Option Bytes → Result LookupResult
  unfolding eblob_path c_string
  make_result base_port eblob_style_path info name none = throw (runtime_error no_lookup_name)
  make_result base_port eblob_style_path info name (some host) =
      let port = p.server_port info.addr % 2 ^ 16 in
      ok (record {
        hostname = c_string host;
        port = port;
        path = if eblob_style_path then eblob_path base_port port name info else [];
        group = info.id.group_id;
        id = info.id;
      })

  -- One round of the loop, at the bytes from `data` on.
  unfoldable pub parse_one : ℤ → Bool → Bytes → Result LookupResult
  unfolding make_result c_string
  parse_one base_port eblob_style_path bytes =
      let info = p.header (take min_size bytes) in
      make_result base_port eblob_style_path info (c_string (drop min_size bytes))
        (p.getnameinfo info.addr)

  -- The loop: `bytes` is the buffer from the pointer on, `size` the counter. Pointer and counter move
  -- by a sum in `size_t`, and the counter wraps around where a record claims to be longer than what is
  -- left. A header that the buffer does not hold is read outside of it. `unended` is what stands for
  -- a loop that the fuel does not bring to an end.
  unfoldable pub parse_loop :
      Result (List LookupResult) → ℕ → ℤ → Bool → Bytes → ℕ → Result (List LookupResult)
  unfolding parse_one
  parse_loop unended zero base_port eblob_style_path bytes size = unended
  parse_loop unended (suc fuel) base_port eblob_style_path bytes size =
      let step = (min_size + (p.header (take min_size bytes)).flen) % word in
      let round : Result (List LookupResult) = do
        result ← parse_one base_port eblob_style_path bytes
        ret ←
            parse_loop unended fuel base_port eblob_style_path (drop step bytes)
              ((size + word - step) % word)
        ok (result ∷ ret)
      in if ltb min_size size
        then (if ltb (length bytes) min_size then undefined else round)
        else ok []

  -- A round whose sum does not wrap around moves the pointer on by at least one byte, so for such
  -- answers the length is fuel enough.
  unfoldable pub parse_lookup : ℤ → Bool → Bytes → Result (List LookupResult)
  unfolding parse_loop
  parse_lookup base_port eblob_style_path l =
      parse_loop undefined (suc (length l)) base_port eblob_style_path l (length l)
