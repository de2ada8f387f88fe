-- ===== src/Curl.antt =====
-- `curl_wrapper` of src/curl_wrapper.hpp and `curl_write` of src/writer.hpp: the HTTP client that
-- `uploadMetaInfo` and `getMetaInfo` use. libcurl is the parameter `Libcurl`: what each of its calls
-- answers, as a function of all calls up to and with it. A call takes its pointers as numbers, and
-- texts and buffers as the bytes that it reads through them.
pub mod Methods
pub mod Ledger
pub mod Rules
pub mod Keeping
pub mod Closing
pub mod Requests
pub mod Sending
pub mod Answers
pub mod Settings
pub mod Refinement
pub mod Recorded
pub mod Lost
use libelliptics_proxy.Base.{
  ℕ, ◌+◌, ◌*◌, ◌%◌, ◌^◌, ℤ, pos, Bool, true, false, List, [], ◌∷◌, ◌++◌, Option, none, some, ◌==◌,
  word, Bytes, length, take, if◌then◌else◌,
}
use libelliptics_proxy.Result.{
  Exception, Result, ok, throw, undefined, runtime_error, library, no_curl_header, form_refused,
}
use libelliptics_proxy.Resource.{Ptr}

-- The options of a handle, with their values.
pub data CurlOption : Type 0 where
  nosignal forbid_reuse timeout timeout_ms : ℤ → CurlOption
  url postfields : Bytes → CurlOption
  httpheader httppost : Ptr → CurlOption
  writedata writefunction : CurlOption
  postfieldsize : ℕ → CurlOption
  other : ℕ → ℤ → CurlOption

-- The parts of a form: a name, a type of content and a buffer of a size, or a name and a value.
pub data Part : Type 0 where
  file : Bytes → Bytes → Bytes → ℕ → Part
  param : Bytes → Bytes → Part

-- The calls of libcurl, and, as `handed`, its calls of the write function, with the data, the number
-- of bytes and what the function returned.
pub data Call : Type 0 where
  easy_init : Call
  easy_setopt : Ptr → CurlOption → Call
  easy_perform easy_getinfo easy_cleanup : Ptr → Call
  slist_append : Ptr → Bytes → Call
  slist_free_all : Ptr → Call
  formadd : Ptr → Ptr → Part → Call
  formfree : Ptr → Call
  handed : Bytes → ℕ → ℕ → Call

-- What the write function is handed: a buffer, `size` and `nmemb`.
pub record Piece : Type 0 where
  pub ptr : Bytes
  pub size : ℕ
  pub nmemb : ℕ

pub record Libcurl : Type 0 where
  -- The answers of the calls that return a pointer, a code (0 is CURLE_OK), and a code with the two
  -- pointers of a form; the status that `curl_easy_getinfo` reads, and the data that a transfer hands
  -- to the write function. The newest call stands first.
  pub pointer : List Call → Ptr
  pub code : List Call → ℕ
  pub form : List Call → ℕ × Ptr × Ptr
  pub status : List Call → ℤ
  pub pieces : List Call → List Piece
  -- `std::ostream::write`: the content of a stream after it, and whether it returned.
  pub write : Bytes → Bytes → Bytes × Bool

-- The members of a client, the content of the stream of its answer, and the calls made so far.
pub record Client : Type 0 where
  pub handle : Ptr
  pub headers : Ptr
  pub post : Ptr
  pub last : Ptr
  pub response : Bytes
  pub calls : List Call

abbrev pub C {ℓ} : Type ℓ → Type ℓ
C A = Client → Result A × Client

abbrev pub pure {ℓ} : {A : Type ℓ} → A → C A
pure a c = (ok a, c)

abbrev pub raise {ℓ} : {A : Type ℓ} → Exception → C A
raise e c = (throw e, c)

abbrev pub hand_on {ℓ κ} :
    {A : Type ℓ} {B : Type κ} → (A → C B) → Result A × Client → Result B × Client
hand_on f (ok a, c) = f a c
hand_on f (throw e, c) = (throw e, c)
hand_on f (undefined, c) = (undefined, c)

infixl 5 ◌>>=◌ ◌>>◌
abbrev pub ◌>>=◌ {ℓ κ} : {A : Type ℓ} {B : Type κ} → C A → (A → C B) → C B
◌>>=◌ m f c = hand_on f (m c)

abbrev pub ◌>>◌ {ℓ κ} : {A : Type ℓ} {B : Type κ} → C A → C B → C B
m >> k = m >>= λ _. k

abbrev pub record_call : Call → Client → Client
record_call e c = record c { calls = e ∷ c.calls }

-- The `write function`: the count of bytes, or 0 where the stream throws, and the stream.
unfoldable pub curl_write : (Bytes → Bytes → Bytes × Bool) → Piece → Bytes → ℕ × Bytes
curl_write write piece stream =
    let count = piece.size * piece.nmemb % word in
    let (content, returned) = write stream (take count piece.ptr) in
    (if returned then count else 0, content)

-- A transfer, as libcurl documents it, hands its data over piece by piece, until the write function
-- returns another number than that of the bytes.
unfoldable pub hand_over : (Bytes → Bytes → Bytes × Bool) → List Piece → Client → Client
unfolding curl_write
hand_over write [] c = c
hand_over write (piece ∷ pieces) c =
    let (count, content) = curl_write write piece c.response in
    let c' =
      record_call (handed piece.ptr (piece.size * piece.nmemb) count)
        (record c { response = content }) in
    let rest = hand_over write pieces c' in if count == piece.size * piece.nmemb then rest else c'

-- The two `check_error`.
abbrev pub check_error : ℕ → C (Unit {0})
check_error code = if code == 0 then pure tt else raise (library code)

abbrev pub check_form_error : ℕ → C (Unit {0})
check_form_error code = if code == 0 then pure tt else raise (runtime_error form_refused)
