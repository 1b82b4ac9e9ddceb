-- ===== src/HttpPool/Cache.antt =====
-- The response cache of src/http_pool.c: cache_hash, make_cache_key, vwasm_http_pool_cache_get and
-- vwasm_http_pool_cache_put. The 64 chains are a function from the bucket to its entries, first to
-- last. The two allocations of a call succeed or fail as its Boolean arguments say; times are in
-- seconds, `(now - cached_at) * 1000 < ttl_ms` is written without the subtraction.
pub mod Keys
pub mod Laws
use vmod_wasm.Base.{
  ℕ, zero, suc, ◌+◌, ◌*◌, ◌%◌, ◌^◌, Bool, true, false, not, ◌&&◌, ◌||◌, List, [], ◌∷◌, ◌++◌, Option,
  none, some, ltb, leb, ◌==◌, if◌then◌else◌, incr64, length, get_elem?, set, Bytes, bytes_eq, Slice,
  null, bytes,
}
use vmod_wasm.Base.Decimal.{decimal}

pub record CacheEntry : Type 0 where
  pub key : Bytes
  pub response_data : Bytes
  pub status_code : ℕ
  pub cached_at : ℕ
  pub ttl_ms : ℕ

pub record ResponseCache : Type 0 where
  pub cache_buckets : ℕ → List CacheEntry
  pub cache_ttl_ms : ℕ
  pub stat_cache_hits : ℕ
  pub stat_cache_misses : ℕ

-- As `vwasm_http_pool_new` leaves it.
abbrev pub new_cache : ResponseCache
new_cache = record {
  cache_buckets = λ bucket. [];
  cache_ttl_ms = 1000;
  stat_cache_hits = 0;
  stat_cache_misses = 0;
}

abbrev cache_bucket_count : ℕ
cache_bucket_count = 64

abbrev max_response_size : ℕ
max_response_size = 1024 * 1024

hash_from : ℕ → Bytes → ℕ
hash_from hash [] = hash
hash_from hash (c ∷ cs) = hash_from ((hash * 2 ^ 5 % 2 ^ 32 + hash + c) % 2 ^ 32) cs

pub cache_hash : Bytes → ℕ
unfolding hash_from
cache_hash key = hash_from 5381 key % cache_bucket_count

unfoldable pub make_cache_key : Bytes → Bytes → ℕ → Bytes → Bytes
make_cache_key method host port path =
    method ++ (b':' ∷ (host ++ (b':' ∷ (decimal port ++ (b':' ∷ path)))))

find_entry : Bytes → List CacheEntry → Option CacheEntry
find_entry key [] = none
find_entry key (e ∷ es) = if bytes_eq e.key key then some e else find_entry key es

abbrev is_fresh : ℕ → CacheEntry → Bool
is_fresh now e = ltb (now * 1000) (e.cached_at * 1000 + e.ttl_ms)

missed : ResponseCache → ResponseCache × Option (Bytes × ℕ)
missed r = (record r { stat_cache_misses = incr64 r.stat_cache_misses }, none)

-- `none` is NULL, also where the copy of a hit cannot be allocated.
answer : Bool → ℕ → ResponseCache → Option CacheEntry → ResponseCache × Option (Bytes × ℕ)
unfolding missed
answer data_ok now r none = missed r
answer data_ok now r (some e) =
    if is_fresh now e
    then (
      record r { stat_cache_hits = incr64 r.stat_cache_hits },
      if data_ok then some (e.response_data, e.status_code) else none,
    )
    else missed r

pub cache_get :
    Bool → Bool → ℕ → ResponseCache → Bytes → Bytes → ℕ → Bytes → ResponseCache × Option (Bytes × ℕ)
unfolding answer find_entry
cache_get key_ok data_ok now r method host port path =
    let key = make_cache_key method host port path in
    if not key_ok
    then (r, none)
    else answer data_ok now r (find_entry key (r.cache_buckets (cache_hash key)))

-- The chain with the entry of the key overwritten, or with a new entry in front.
overwrite : CacheEntry → List CacheEntry → List CacheEntry
overwrite e [] = []
overwrite e (x ∷ es) = if bytes_eq x.key e.key then e ∷ es else x ∷ overwrite e es

put_chain : CacheEntry → List CacheEntry → List CacheEntry
unfolding find_entry overwrite
put_chain e es = elim (find_entry e.key es) [ some old ↦ overwrite e es | none ↦ e ∷ es ]

abbrev update : (ℕ → List CacheEntry) → ℕ → List CacheEntry → ℕ → List CacheEntry
update buckets i es j = if i == j then es else buckets j

-- The response is NULL, or bytes; `key_ok` is the allocation of the key, `data_ok` stands for the
-- allocations of the copy and of the entry, either of which ends the call without a change.
pub cache_put :
    Bool → Bool → ℕ → ResponseCache → Bytes → Bytes → ℕ → Bytes → Slice → ℕ → ResponseCache
unfolding put_chain
cache_put key_ok data_ok now r method host port path (null len) status_code = r
cache_put key_ok data_ok now r method host port path (bytes response) status_code =
    let key = make_cache_key method host port path in
    let bucket = cache_hash key in
    let e : CacheEntry = record {
      key = key;
      response_data = response;
      status_code = status_code;
      cached_at = now;
      ttl_ms = r.cache_ttl_ms;
    } in
    if length response == 0 || ltb max_response_size (length response)
    then r
    else if not (key_ok && data_ok)
    then r
    else record r {
      cache_buckets = update r.cache_buckets bucket (put_chain e (r.cache_buckets bucket));
    }
