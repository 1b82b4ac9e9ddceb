-- ===== src/Tests/Caches.antt =====
-- The response cache at concrete requests.
use vmod_wasm.Base.{◌≡◌, true, [], some, arith, incr64, Bytes, codes, bytes}
use vmod_wasm.HttpPool.Cache.{ResponseCache, cache_get, cache_put}
use vmod_wasm.HttpPool.Cache.Keys.{Lacks}
use vmod_wasm.HttpPool.Cache.Laws.{cache_get-cache_put}

abbrev empty_cache : ResponseCache
empty_cache = record {
  cache_buckets = λ bucket. [];
  cache_ttl_ms = 5000;
  stat_cache_hits = 0;
  stat_cache_misses = 0;
}

abbrev method : Bytes
method = codes "GET"

abbrev host : Bytes
host = codes "api.test"

abbrev path : Bytes
path = codes "/v1"

abbrev body : Bytes
body = codes "ok"

abbrev filled : ResponseCache
filled = cache_put true true 100 empty_cache method host 80 path (bytes body) 200

cache_get-cache_put_example :
    cache_get true true 104 filled method host 80 path
    ≡ (record filled { stat_cache_hits = incr64 filled.stat_cache_hits }, some (body, 200))
cache_get-cache_put_example =
    cache_get-cache_put 100 104 empty_cache method host 80 path body 200 (omega arith, omega arith)
      (omega arith)

method-Lacks : Lacks b':' method
method-Lacks = ground arith

host-Lacks : Lacks b':' host
host-Lacks = ground arith
