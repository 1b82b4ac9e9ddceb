-- ===== src/Lib.antt =====
-- vmod-wasm runs Wasm modules inside Varnish. This library models the parts of it, written in C, that
-- keep state of their own across requests, and the checks that guard a module's outgoing HTTP calls:
--
--   - src/http_pool.c, the pool of outgoing connections. HttpPool/Breaker.antt is the table of circuit
--     breakers (cb_find_or_create, vwasm_http_pool_cb_allow, _cb_success, _cb_failure);
--     HttpPool/Addr.antt the test for private addresses (vwasm_http_addr_is_private);
--     HttpPool/Dns.antt the DNS cache (vwasm_http_pool_resolve); HttpPool/Conns.antt the loops over the
--     connection slots and HttpPool/Pool.antt the whole of vwasm_http_pool_new, _acquire, _release,
--     _close and _destroy, which call the three others, HttpPool/Pool/Races.antt the interleavings of
--     _release; HttpPool/Cache.antt the response cache (_cache_get,
--     _cache_put).
--   - src/proxy_wasm_shared.c, what Wasm instances share. Shared/SharedData.antt is the key-value store
--     with compare-and-swap (vwasm_shared_data_get, _set), Shared/Queues.antt the named queues
--     (vwasm_queue_register, _resolve, _enqueue, _dequeue).
--   - src/proxy_wasm_http.c, the outgoing calls. Http/Tokens.antt has the character tests and
--     pw_http_append_header, Http/Numbers.antt pw_http_parse_size and pw_http_parse_port,
--     Http/Upstream.antt pw_http_parse_upstream and the allowlist check of pw_proxy_http_call,
--     Http/Requests.antt the request that pw_proxy_http_call makes of a guest's headers,
--     Http/Values.antt pw_http_find_header_value and pw_http_value_has_token, Http/Replies.antt the two
--     loops that read a response and the rules that say where it ends, Http/Dialing.antt
--     pw_http_connect, Http/Callouts.antt the limits, the
--     checks, pw_http_write_all and the entry that is kept of a response, and Http/Callouts/Exchange.antt
--     the exchange with the upstream and pw_proxy_http_call as a whole. connect, write and read are the
--     parameter Network; what the call does to its connection and to the breaker is a list of effects.
--   - src/store_pool.c, the pool of prepared Wasm stores. StorePool.antt has vwasm_store_pool_acquire and
--     _release as steps of threads that interleave, and vwasm_warm_instance_restore.
--   - src/proxy_wasm_mem.h, the linear memory of a guest. Memory.antt has pw_validate_region,
--     pw_read_string, pw_write_u32, pw_alloc_wasm and pw_return_bytes, which the host calls use to take
--     arguments and to give results.
--   - src/proxy_wasm_headers.c, the header maps that a guest reads and writes. Headers/Trailers.antt has
--     the trailer maps (pw_trailer_get, _add, _remove, _clear), Headers/Wire.antt the serialized form of
--     a map as proxy_get_header_map_pairs writes it and proxy_set_header_map_pairs reads it,
--     Headers/Maps.antt the headers of a Varnish message as pairs and their size, Headers/Response.antt
--     the headers in the raw text of a callout's response
--     (pw_http_call_response_find_header, pw_http_call_response_headers_size). Headers/Calls.antt has the
--     host calls on one header and Headers/Calls/Pairs.antt those on a whole map, which take their
--     arguments and give their results through Memory.antt; Headers/Calls/Runs.antt is a guest's
--     sequence of such calls. http_GetHdr, http_Unset and http_SetHeader of Varnish are the parameter
--     Varnish, and whether WS_Copy or malloc succeeds is an argument of each call. The names and values
--     of a Varnish message are taken as the C strings that they are, without their NUL.
--   - src/proxy_wasm.c, calls of a guest on buffers and metrics. Proxy/Bodies.antt has pw_replace_bytes,
--     proxy_get_buffer_bytes, proxy_set_buffer_bytes and proxy_get_buffer_status, Proxy/Metrics.antt
--     proxy_define_metric, _increment_, _record_ and _get_metric, and Proxy/Sharing.antt the calls on shared
--     data and shared queues, which move bytes between Memory.antt and Shared/SharedData.antt and
--     Shared/Queues.antt; the rest of the file is not modelled.
--   - src/vdp_wasm.c, the delivery processors, through which the body of a response passes. Delivery.antt
--     has the one for a single module (vdp_wasm_init, _bytes, _fini and vdp_wasm_task_fini), with the task
--     that the request keeps, and Delivery/Chains.antt the one for a chain of modules
--     (vdp_wasm_chain_init, _bytes, _fini and vdp_wasm_chain_task_free). What a module's exported functions
--     do to its state is the parameter Exports, and the next processor is a function on a state of its own.
--     A chunk is a list of bytes or NULL, and its length is that of the list. The model of a processor is
--     of one that is pushed once at most for a request. The stores that are given back are kept by name, those of a
--     pool with the index of the pool.
--
-- A call of the connection pool or of a store is one step from a state to a state and an answer: it
-- holds the lock of what it changes. The exceptions are named where they stand: vwasm_http_pool_acquire takes its
-- locks one after another, and vwasm_http_pool_resolve reads and writes its cache under two holds of
-- dns_lock; the model runs each of these calls as a whole. vwasm_http_pool_release changes its connection under
-- no lock at all: HttpPool/Pool.antt runs it as a whole, and HttpPool/Pool/Races.antt step by step, with the steps
-- of other releases and with acquires in between.
--
-- Numbers are natural numbers; a counter of 32 or 64 bits wraps around as incr32 and incr64 of
-- Base/Tests.antt write out. Byte strings are lists of numbers, a file descriptor is an optional
-- number, a pointer with a length is a Slice of Base/Buffers.antt. The clock, getaddrinfo, connect, poll
-- and each allocation are arguments of the functions that use them, and the theorems hold for all their
-- values unless they say otherwise. Loops are structural recursion over the list they walk. Some run on fuel: the
-- printing of a decimal numeral (Base/Decimal.antt), on one more than the number, which a tenth of it
-- replaces in each round, and the loop over the tokens of a value (Http/Values.antt), on one more than
-- the bytes of the value, of which each round takes one at least; the two read loops (Http/Replies.antt),
-- on the bytes that there is room for and on those that are needed, of which each round that goes on adds
-- one at least; pw_http_write_all and the count of header lines (Http/Callouts.antt), on the bytes to be
-- sent or counted, of which each round takes one at least.
--
-- Not modelled: the freeing of memory (of the _destroy functions, only the descriptors that
-- vwasm_http_pool_destroy closes), the text of vwasm_http_pool_stats_json, the socket calls,
-- and the rest of the program: the engine, the building of the
-- store pool, the properties, the host functions of src/host_functions.c and the VCL functions.
pub mod Base
pub mod HttpPool
pub mod Shared
pub mod Http
pub mod Delivery
pub mod Headers
pub mod Memory
pub mod Proxy
pub mod StorePool
pub mod Tests
