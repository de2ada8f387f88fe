-- ===== src/Tests/Fixtures.antt =====
-- A small platform and a small node, at which the theorems on src/proxy.cpp are applied.
use mathlib.Core.List.{append_assoc, append-nil}
use libelliptics_proxy.Base.{
  word, ℕ, zero, suc, ◌-◌, ◌≡◌, ◌≢◌, refl, ap, ◌∙◌, ℤ, pos, negsuc, Bool, true, false, List, [],
  ◌∷◌, ◌++◌, Option, none, some, ◌==◌, Bytes, length, drop, take, replicate, eqb_ℤ, arith,
  if◌then◌else◌,
}
use libelliptics_proxy.Result.{Result, ok, throw, library}
use libelliptics_proxy.Ids.{DnetId, Key}
use libelliptics_proxy.Text.{Lacks}
use libelliptics_proxy.Lookup.{
  Platform, Header, LookupResult, parse_lookup, make_result, eblob_path, colon,
}
use libelliptics_proxy.Metabase.MetaInfo.{IsTokenizer, IsPrinter}
use libelliptics_proxy.Proxy.{External, Settings, World, Event}
use libelliptics_proxy.Write.{Request}
use libelliptics_proxy.Weights.{MetabaseGroupWeightsResponse, GroupWithWeight}

abbrev pub nth : ℕ → Bytes → ℕ
nth n [] = 0
nth zero (b ∷ bs) = b
nth (suc n) (b ∷ bs) = nth n bs

-- Numbers in unary, with a sign.
abbrev pub print : ℤ → Bytes
print (pos n) = 0x31 ∷ replicate n 0x31
print (negsuc n) = 0x2d ∷ replicate n 0x31

abbrev pub read_int : Bytes → Option ℤ
read_int [] = none
read_int (b ∷ bs) = if b == 0x31 then some (pos (length bs)) else some (negsuc (length bs))

length-replicate : (n b : ℕ) → length (replicate n b) ≡ n
length-replicate zero b = refl
length-replicate (suc n) b = ap suc (length-replicate n b)

replicate-Lacks : (n : ℕ) → Lacks colon (replicate n 0x31)
replicate-Lacks zero = tt
replicate-Lacks (suc n) = (refl, replicate-Lacks n)

print-IsPrinter_text : (g : ℤ) → print g ≢ []
print-IsPrinter_text (pos n) = λ e. cc
print-IsPrinter_text (negsuc n) = λ e. cc

print-Lacks : (g : ℤ) → Lacks colon (print g)
print-Lacks (pos n) = (refl, replicate-Lacks n)
print-Lacks (negsuc n) = (refl, replicate-Lacks n)

read_int-print : (g : ℤ) → read_int (print g) ≡ some g
read_int-print (pos n) = ap (λ k. some (pos k)) (length-replicate n 0x31)
read_int-print (negsuc n) = ap (λ k. some (negsuc k)) (length-replicate n 0x31)

pub print-IsPrinter : IsPrinter print read_int
print-IsPrinter = record {
  some_text = print-IsPrinter_text;
  no_colon = print-Lacks;
  reads = read_int-print;
}

-- A piece that is not empty, in front of the others.
abbrev pub emit : Bytes → List Bytes → List Bytes
emit [] ts = ts
emit (b ∷ bs) ts = (b ∷ bs) ∷ ts

-- The pieces at a separator, of which `t` is the beginning of the first.
abbrev pub split : ℕ → Bytes → Bytes → List Bytes
split c t [] = emit t []
split c t (b ∷ bs) =
    let rest = split c [] bs in
    let longer = split c (t ++ b ∷ []) bs in if b == c then emit t rest else longer

abbrev pub tokenize : ℕ → Bytes → List Bytes
tokenize c bs = split c [] bs

==-self : (c : ℕ) → (c == c) ≡ true
==-self c = ground arith

split-append :
    (c : ℕ) (s t rest : Bytes)
    → Lacks c t
    → split c s (t ++ (c ∷ rest)) ≡ emit (s ++ t) (split c [] rest)
split-append c s [] rest h = rw (==-self c, append-nil s) refl
split-append c s (b ∷ bs) rest h =
    rw h.0 (split-append c (s ++ b ∷ []) bs rest h.1 ∙ rw (append_assoc s (b ∷ []) bs) refl)

split_last : (c : ℕ) (s t : Bytes) → Lacks c t → split c s t ≡ emit (s ++ t) []
split_last c s [] h = rw (append-nil s) refl
split_last c s (b ∷ bs) h =
    rw h.0 (split_last c (s ++ b ∷ []) bs h.1 ∙ rw (append_assoc s (b ∷ []) bs) refl)

emit_some : (t : Bytes) (ts : List Bytes) → t ≢ [] → emit t ts ≡ t ∷ ts
emit_some [] ts h = absurd (h refl)
emit_some (b ∷ bs) ts h = refl

pub tokenize-IsTokenizer : IsTokenizer tokenize
tokenize-IsTokenizer = record {
  nothing = λ c. refl;
  last = λ c t h l. split_last c [] t l ∙ emit_some t [] h;
  next = λ c t rest h l. split-append c [] t rest l ∙ emit_some t (split c [] rest) h;
}

-- Structures of five bytes: the address, two of the identifier, the group, and the length of the
-- path; offset and size are fixed. Address 0 does not resolve.
abbrev pub read_header : Bytes → Header
read_header bs = record {
  id = record { id = take 2 (drop 1 bs); group_id = pos (nth 3 bs); type = pos 0 };
  addr = take 1 bs;
  flen = nth 4 bs;
  offset = 2;
  size = 3;
}

abbrev pub resolve : Bytes → Option Bytes
resolve addr = if nth 0 addr == 0 then none else some (addr ++ 0 ∷ [])

abbrev pub platform : Platform
platform = record {
  id_size = 2;
  addr_size = 1;
  cmd_size = 2;
  addr_attr_size = 1;
  file_info_size = 1;
  header = read_header;
  getnameinfo = resolve;
  server_port = λ addr. 1025;
  print = print;
  read_int = read_int;
}

-- The answer of a write that reached group 7, with the path `a`.
abbrev pub one_record : Bytes
one_record = 9 ∷ 1 ∷ 2 ∷ 7 ∷ 2 ∷ 0x61 ∷ 0 ∷ []

abbrev pub dnet_id : DnetId
dnet_id = record { id = 1 ∷ 2 ∷ []; group_id = pos 7; type = pos 0 }

-- The weights that the metabase offers: for two copies, the groups 1 and 2 with the weight 3 and
-- the groups 3 and 4 with the weight 4.
abbrev pub pair_weights : List GroupWithWeight
pair_weights =
    record { group_ids = pos 1 ∷ pos 2 ∷ []; weight = 3 }
    ∷ record { group_ids = pos 3 ∷ pos 4 ∷ []; weight = 4 }
    ∷ []

abbrev pub response : MetabaseGroupWeightsResponse
response = record { info = record { size = 2; weighted_groups = pair_weights } ∷ [] }

-- Removals fail in group 1, ranges are refused by group 1 and held by group 2.
abbrev pub refuses : List Event → Bool
refuses (Event.remove_id id ∷ es) = eqb_ℤ id.group_id (pos 1)
refuses _ = false

abbrev pub answer_done : List Event → Result (Unit {0})
answer_done es = if refuses es then throw (library 5) else ok tt

abbrev pub answer_texts : List Event → Result (List Bytes)
answer_texts (Event.read_data_range io g ∷ es) = elim g [
  | pos (suc zero) ↦ throw (library 2)
  | _ ↦ ok ((4 ∷ 5 ∷ []) ∷ [])
]
answer_texts _ = ok []

-- The metabase keeps the groups 5 and 6 for every key.
abbrev pub meta_body : Bytes
meta_body = print (pos 5) ++ (colon ∷ print (pos 6))

-- The size of an embedded object by its first byte, of which 255 stands for the largest that wraps.
abbrev pub read_size : Bytes → ℕ
read_size bs = if nth 0 bs == 255 then word - 16 else nth 0 bs

abbrev pub node : External
node = record {
  platform = platform;
  is_prepare = λ f. f == 1;
  is_commit = λ f. f == 2;
  is_plain_write = λ f. f == 4;
  dump_id = λ id. id.id;
  tokenize = tokenize;
  read_embed = λ bs. record { size = read_size bs; type = nth 1 bs; flags = 0 };
  read_u64 = nth 0;
  text = λ es. ok one_record;
  texts = answer_texts;
  done = answer_done;
  number = λ es. ok (pos 1);
  identify = λ es. ok dnet_id;
  shuffled = λ es l. l;
  drawn = λ es total. total - 1;
  http = λ es. ok (pos 200, meta_body);
  weights = λ es. ok response;
  info = λ es. throw (library 1);
  symmetric = λ es. ok ((pos 2 ∷ pos 1 ∷ []) ∷ (pos 3 ∷ []) ∷ []);
  bad = λ es. ok ((pos 1, pos 1 ∷ []) ∷ []);
}

-- A node that grants every removal.
abbrev pub obedient_node : External
obedient_node = record node { done = λ es. ok tt }

-- A proxy whose configured groups are 8 and 9, with a metabase, that writes in chunks of 2 bytes
-- and asks for one copy of any.
abbrev pub settings : Settings
settings = record {
  groups = pos 8 ∷ pos 9 ∷ [];
  base_port = pos 1024;
  directory_bit_num = pos 3;
  success_copies_num = negsuc 0;
  state_num = pos 1;
  replication_count = pos 2;
  chunk_size = pos 2;
  eblob_style_path = true;
  metabase_usage = 0;
  metabase_write_addr = 0x77 ∷ [];
  metabase_read_addr = 0x72 ∷ [];
  has_dealer = true;
  group_weights_update_period = pos 60;
  deadline = 0;
}

abbrev pub start : World
start = record { trace = []; cache = []; stamp = 0 }

abbrev pub key : Key
key = record {
  by_id = false;
  filename = 0x61 ∷ [];
  column = pos 0;
  id = record { id = dnet_id; empty = true };
}

-- The key by identifier with a type.
abbrev pub id_key : Bytes → ℤ → Key
id_key id type = record {
  by_id = true;
  filename = [];
  column = type;
  id = record { id = record { id = id; group_id = pos 0; type = type }; empty = false };
}

-- A write of five bytes to two groups.
abbrev pub content : Bytes
content = 1 ∷ 2 ∷ 3 ∷ 4 ∷ 5 ∷ []

abbrev pub request : Request
request = record {
  key = key;
  content = content;
  offset = 0;
  size = 0;
  cflags = 0;
  ioflags = 0;
  groups = pos 7 ∷ pos 8 ∷ [];
  replication_count = 2;
  embeds = [];
}

-- What that answer says.
abbrev pub one_result : LookupResult
one_result = record {
  hostname = 9 ∷ [];
  port = 1025;
  path =
      0x2f ∷ 0x31 ∷ 0x31 ∷ 0x2f ∷ 0x61 ∷ 0x3a ∷ 0x31 ∷ 0x31 ∷ 0x31 ∷ 0x3a ∷ 0x31 ∷ 0x31 ∷ 0x31
      ∷ 0x31 ∷ [];
  group = pos 7;
  id = dnet_id;
}

pub one_record-parse_lookup :
    parse_lookup platform (pos 1024) true one_record ≡ ok (one_result ∷ [])
unfolding parse_lookup eblob_path make_result
one_record-parse_lookup = refl
