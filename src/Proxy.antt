-- ===== src/Proxy.antt =====
-- `EllipticsProxy` (include/elliptics/proxy.hpp, src/proxy.cpp): its members, the calls that leave
-- the process, and the monad of its methods. The node, the metabase and the other libraries are the
-- parameter `External`: what each call answers, as a function of all calls up to and with it, so
-- that an answer may depend on anything that went before.
use Prim.Native.Char.{code}
use Prim.Native.String.{String}
use libelliptics_proxy.Base.{ℕ, ℤ, Bool, true, false, List, [], ◌∷◌, ◌≡◌, ap, Bytes, if◌then◌else◌}
use libelliptics_proxy.Result.{Exception, Reason, Result, ok, throw, undefined, runtime_error}
use libelliptics_proxy.Ids.{DnetId, Key}
use libelliptics_proxy.Lookup.{Platform}
use libelliptics_proxy.Weights.{Cache, MetabaseGroupWeightsResponse}

-- The bytes of a literal text.
abbrev pub codes : String → Bytes
codes String.[] = []
codes (String.◌∷◌ c s) = code c ∷ codes s

-- `metabase_type`.
abbrev pub meta_none : ℕ
meta_none = 0

abbrev pub meta_optional : ℕ
meta_optional = 1

abbrev pub meta_normal : ℕ
meta_normal = 2

abbrev pub meta_mandatory : ℕ
meta_mandatory = 3

-- The members that the constructor sets once; `has_dealer` says whether there is a dealer.
pub record Settings : Type 0 where
  pub groups : List ℤ
  pub base_port : ℤ
  pub directory_bit_num : ℤ
  pub success_copies_num : ℤ
  pub state_num : ℤ
  pub replication_count : ℤ
  pub chunk_size : ℤ
  pub eblob_style_path : Bool
  pub metabase_usage : ℕ
  pub metabase_write_addr : Bytes
  pub metabase_read_addr : Bytes
  pub has_dealer : Bool
  pub group_weights_update_period : ℤ
  pub deadline : ℕ

-- `dnet_io_attr`, as the range and bulk calls fill it in.
pub record IoAttr : Type 0 where
  pub id : Bytes
  pub parent : Bytes
  pub start : ℕ
  pub num : ℕ
  pub flags : ℕ
  pub type : ℤ
  pub size : ℕ

-- The calls, with their arguments. A session's settings hold until they are set again. The first
-- line is the constructor's and the destructor's: the logger, the node with its timeouts, flags and
-- namespace (none where it is empty), the remotes, the dealer and the thread of the weights.
pub data Event : Type 0 where
  open_log : Bytes → ℕ → Event
  open_node : ℕ → ℤ → ℤ → Bytes → Event
  add_remote : Bytes → ℤ → ℤ → Event
  open_dealer : Bytes → Event
  start_thread interrupt_thread join_thread : Event
  open_session : Event
  set_groups : List ℤ → Event
  set_cflags set_ioflags : ℕ → Event
  state_num : Event
  transform : Bytes → Event
  lookup_id : DnetId → Event
  lookup_name : Bytes → Event
  lookup_address_id : DnetId → ℤ → Event
  lookup_address_name : Bytes → ℤ → Event
  read_latest read_data_wait : Key → ℕ → ℕ → Event
  read_data_range : IoAttr → ℤ → Event
  bulk_read : List IoAttr → Event
  write_data_wait_id : DnetId → Bytes → ℕ → Event
  write_data_wait : Key → Bytes → ℕ → Event
  write_prepare write_commit : Key → Bytes → ℕ → ℕ → Event
  write_plain : Key → Bytes → ℕ → Event
  bulk_write : List IoAttr → List Bytes → Event
  write_metadata : Key → Bytes → List ℤ → Event
  remove_id : DnetId → Event
  remove_name : Bytes → Event
  remove_key : Key → Event
  random_shuffle random : Event
  http_get : Bytes → Event
  http_post : Bytes → Bytes → Event
  get_group_weights : ℕ → Event
  get_group_info : ℤ → Event
  get_symmetric_groups get_bad_groups : Event
  log_error log_info : Event
  sleep : ℤ → Event

-- The fields of `dnet_common_embed` in front of its data.
pub record Embed : Type 0 where
  pub size : ℕ
  pub type : ℕ
  pub flags : ℕ

-- `GroupInfoResponse`.
pub record GroupInfoResponse : Type 0 where
  pub nodes : List Bytes
  pub couples : List ℤ
  pub status : ℤ

pub record External : Type 0 where
  pub platform : Platform
  -- The flags of elliptics among `ioflags`.
  pub is_prepare : ℕ → Bool
  pub is_commit : ℕ → Bool
  pub is_plain_write : ℕ → Bool
  -- `dnet_dump_id_len` at length 6, and `boost::tokenizer` at one separator.
  pub dump_id : DnetId → Bytes
  pub tokenize : ℕ → Bytes → List Bytes
  -- `dnet_common_convert_embedded` of 16 bytes, and a `uint64_t` of 8 bytes in the host's order.
  pub read_embed : Bytes → Embed
  pub read_u64 : Bytes → ℕ
  -- The answers of the calls; the newest call stands first.
  pub text : List Event → Result Bytes
  pub texts : List Event → Result (List Bytes)
  pub done : List Event → Result (Unit {0})
  pub number : List Event → Result ℤ
  pub identify : List Event → Result DnetId
  pub shuffled : List Event → List ℤ → List ℤ
  pub drawn : List Event → ℕ → ℕ
  pub http : List Event → Result (ℤ × Bytes)
  pub weights : List Event → Result MetabaseGroupWeightsResponse
  pub info : List Event → Result GroupInfoResponse
  pub symmetric : List Event → Result (List (List ℤ))
  pub bad : List Event → Result (List (ℤ × List ℤ))

-- The calls made so far, the weight cache and `metabase_current_stamp_`.
pub record World : Type 0 where
  pub trace : List Event
  pub cache : Cache
  pub stamp : ℕ

abbrev pub M {ℓ} : Type ℓ → Type ℓ
M A = World → Result A × World

module _ {ℓ} {A : Type ℓ} where
  abbrev pub pure : A → M A
  pure a w = (ok a, w)

  abbrev pub lift : Result A → M A
  lift r w = (r, w)

  abbrev pub raise : Exception → M A
  raise e w = (throw e, w)

  abbrev pub fail : Reason → M A
  fail r = raise (runtime_error r)

-- What follows a step, by how the step ended.
abbrev pub hand_on {ℓ κ} :
    {A : Type ℓ} {B : Type κ} → (A → M B) → Result A × World → Result B × World
hand_on f (ok a, w) = f a w
hand_on f (throw e, w) = (throw e, w)
hand_on f (undefined, w) = (undefined, w)

infixl 5 ◌>>=◌ ◌>>◌
abbrev pub ◌>>=◌ {ℓ κ} : {A : Type ℓ} {B : Type κ} → M A → (A → M B) → M B
◌>>=◌ m f w = hand_on f (m w)

abbrev pub ◌>>◌ {ℓ κ} : {A : Type ℓ} {B : Type κ} → M A → M B → M B
m >> k = m >>= λ _. k

-- A call: it goes on record, and is answered.
abbrev pub ask {ℓ} : {A : Type ℓ} → (List Event → Result A) → Event → M A
ask answer e w = (answer (e ∷ w.trace), record w { trace = e ∷ w.trace })

-- A call that cannot fail.
abbrev pub tell : Event → M (Unit {0})
tell e w = (ok tt, record w { trace = e ∷ w.trace })

abbrev pub note : World → Event → World
note w e = record w { trace = e ∷ w.trace }

-- `try { m } catch (const std::exception &) { log; throw; } catch (...) { log; throw; }`.
abbrev pub log_failure {ℓ} : {A : Type ℓ} → Result A × World → Result A × World
log_failure (ok a, w) = (ok a, w)
log_failure (throw e, w) = (throw e, note w log_error)
log_failure (undefined, w) = (undefined, w)

abbrev pub rethrow_logged {ℓ} : {A : Type ℓ} → M A → M A
rethrow_logged m w = log_failure (m w)

-- `try { m } catch (…) { h }`, for the exceptions that pass the test.
abbrev pub handle {ℓ} :
    {A : Type ℓ} → (Exception → Bool) → (Exception → M A) → Result A × World → Result A × World
handle test h (ok a, w) = (ok a, w)
handle test h (throw e, w) = if test e then h e w else (throw e, w)
handle test h (undefined, w) = (undefined, w)

abbrev pub catching {ℓ} : {A : Type ℓ} → (Exception → Bool) → M A → (Exception → M A) → M A
catching test m h w = handle test h (m w)

abbrev pub require : Bool → Reason → M (Unit {0})
require true r w = (ok tt, w)
require false r w = (throw (runtime_error r), w)

-- A step that succeeds hands its value on.
pub bind_ok {ℓ κ} :
    {A : Type ℓ} {B : Type κ} (m : M A) (f : A → M B) (w w' : World) (a : A)
    → m w ≡ (ok a, w')
    → (m >>= f) w ≡ f a w'
bind_ok m f w w' a h = ap (hand_on f) h

-- A step that throws ends the rest.
pub bind_throw {ℓ κ} :
    {A : Type ℓ} {B : Type κ} (m : M A) (f : A → M B) (w w' : World) (e : Exception)
    → m w ≡ (throw e, w')
    → (m >>= f) w ≡ (throw e, w')
bind_throw m f w w' e h = ap (hand_on f) h
