-- ===== src/Lib.antt =====
-- libelliptics_proxy: a client library for the elliptics storage, as a model of its C++ code.
--
-- A proxy (`EllipticsProxy`) turns each call on a key into calls of an elliptics session on several
-- groups of nodes. `getGroups` says which groups: those of the call, those that a metabase server
-- keeps for the key, or the configured ones. A write may also take a set of groups from a cache of
-- weights (`group_weights_cache_impl`) that a thread renews from a dealer. The answers of the nodes
-- are parsed into `LookupResult`s (`parse_lookup`), a policy says whether enough copies were written
-- (`upload_is_good`, `uploads_need`), and what was written in part is removed again.
--
-- The files, in the order in which they build on one another:
--   Base, Base/*: numbers, integers (`int` as an unbounded integer, with 32-bit wrap-around written
--     out where the code converts), lists; Result: values, exceptions and undefined behaviour;
--   OrderedMap: `std::map` as the list of its entries; Sorting: `std::sort`, `std::set_difference`,
--     `std::unique`; Text: the operations of `std::string`;
--   Ids: `ID` and `Key` of src/util.cpp with the conversion to keys of the library, and
--     `dnet_id_less` of src/proxy.cpp;
--   Lookup: `parse_lookup`; Upload: `uploads_need`, `upload_is_good`, `write_helper_t`;
--   Weights: src/group_weights_cache.cpp, and Weights/Threads: its lock among threads;
--   Proxy: the members of `EllipticsProxy` (include/elliptics/proxy.hpp), the calls that leave the
--     process, and the monad of the methods;
--   Resource: `resource` of src/resource.hpp; Curl: `curl_wrapper` of src/curl_wrapper.hpp and
--     `curl_write` of src/writer.hpp over libcurl as a parameter, and the two requests that
--     src/proxy.cpp makes with them;
--   Locks: `scoped_lock` of src/scoped_lock.hpp, the monitor and the threads of
--     src/boost_threaded.hpp, and the locks that src/curl_wrapper.hpp gives to OpenSSL;
--   Config, Lifetime: `config`, the constructor and the destructor;
--   Msgpack: the two converters of msgpack objects, over what msgpack offers as a parameter;
--   Metabase: `uploadMetaInfo`, `getMetaInfo`, `collectGroupWeights`, `collectGroupWeightsLoop`,
--     `get_metabalancer_groups_impl`, `get_metabalancer_group_info_impl`, `get_symmetric_groups`,
--     `get_bad_groups`, `get_all_groups`; Groups: `getGroups`;
--   Write: `write_impl`; Read: `read_impl`; Calls: `lookup_impl`, `remove_impl`, `range_get_impl`,
--     `lookup_addr_impl`; Bulk: `bulk_read_impl`, `bulk_write_impl`, all of src/proxy.cpp;
--   Public: the calls of include/elliptics/proxy.hpp with their default arguments;
--   System: a proxy at work, its public calls and the rounds of its thread as steps on the state;
--   Tests: the theorems at concrete inputs.
--
-- The state of a proxy is the record `World`: the calls made so far, newest first, the weight cache
-- and the stamp of the last request for weights. A method is a function from the world to a result
-- and a world. What the node, the HTTP server, the dealer and `random` answer is the parameter
-- `External`, a function of all calls made up to then, so that no theorem rests on a certain
-- answer unless it says so. Flags, groups and i/o flags of a session are calls of that record.
-- The text of messages is left out: an exception carries the place that threw it.
--
-- Sizes and offsets are 64-bit numbers whose wrap-around is written out. Loops over pointers and
-- offsets run on fuel: `parse_loop` on the length of the answer, since a record takes at least a
-- byte where its length does not wrap; `embed_loop` on the length of the text, since an object whose
-- size does not wrap takes at least its header; `chunk_loop` on the length of the content, since a
-- round moves the offset on by a chunk. `parse_loop` and `embed_loop` take the result that stands for
-- the end of the fuel as an argument, so that a theorem can tell it from a loop that ends. A read
-- outside of an object and other undefined behaviour is the result `undefined`; the callers pass it
-- for the end of the fuel too, since a loop that does not end has no result either.
--
-- `External` answers an HTTP request at once. The client behind it is modelled by itself, with every
-- call of libcurl: Curl/Refinement relates the two, and Curl/Ledger keeps account of what libcurl has
-- to be given back.
--
-- Not modelled: the handlers that src/proxy.cpp keeps in comments, and src/threading_traits.hpp, which
-- only names a type. Locks stand in Weights/Threads, where an access to the lock of the cache or to
-- its map is a step of a thread; elsewhere, in a step relation on the state, a public call or a round
-- of the thread is one step, and steps follow one another in any order.
pub mod Base
pub mod Result
pub mod OrderedMap
pub mod Sorting
pub mod Text
pub mod Ids
pub mod Lookup
pub mod Upload
pub mod Weights
pub mod Proxy
pub mod Msgpack
pub mod Config
pub mod Lifetime
pub mod Metabase
pub mod Groups
pub mod Write
pub mod Read
pub mod Resource
pub mod Curl
pub mod Locks
pub mod Calls
pub mod Bulk
pub mod Public
pub mod System
pub mod Tests
