-- ===== src/HttpPool/Cache/Laws.antt =====
-- What is put is got until it is too old, and nothing else changes.
use vmod_wasm.Base.{
  ℕ, ◌+◌, ◌*◌, ◌≤◌, ◌<◌, ◌≡◌, ◌⊎◌, refl, ap, ◌∙◌, inl, inr, Bool, true, false, ◌&&◌, ◌||◌, List, [],
  ◌∷◌, Option, none, some, arith, ltb, ◌==◌, if◌then◌else◌, Bool-cases, Option-cases, incr64,
  length, Bytes, bytes_eq, bytes_eq_iff, bytes_eq_refl, ==_iff, bytes,
}
use vmod_wasm.HttpPool.Cache.{
  CacheEntry, ResponseCache, max_response_size, cache_hash, make_cache_key, find_entry, answer,
  cache_get, overwrite, put_chain, cache_put,
}

-- The entry in use for a key.
pub lookup_entry : ResponseCache → Bytes → Option CacheEntry
lookup_entry r key = find_entry key (r.cache_buckets (cache_hash key))

find_entry-overwrite :
    (k : Bytes) (e : CacheEntry) (es : List CacheEntry) {old : CacheEntry}
    → find_entry e.key es ≡ some old
    → find_entry k (overwrite e es) ≡ (if bytes_eq e.key k then some e else find_entry k es)
unfolding find_entry overwrite
find_entry-overwrite k e [] h = absurd (cc)
find_entry-overwrite k e (x ∷ es) h = elim (Bool-cases (bytes_eq x.key e.key)) [
  | inl hit ↦
      rw hit (let same = ap (λ y. bytes_eq y k) ((bytes_eq_iff x.key e.key).0 hit) in ground arith)
  | inr miss ↦
      let ih = find_entry-overwrite k e es (rw miss at h) in
      rw miss (ground (arith, bytes_eq_iff x.key k, bytes_eq_iff e.key k, bytes_eq_iff x.key e.key))
]

find_entry-put_chain :
    (k : Bytes) (e : CacheEntry) (es : List CacheEntry)
    → find_entry k (put_chain e es) ≡ (if bytes_eq e.key k then some e else find_entry k es)
unfolding put_chain find_entry
find_entry-put_chain k e es = elim (Option-cases (find_entry e.key es)) [
  | inl absent ↦ rw (absent, put_chain) refl
  | inr (old, present) ↦ rw (present, put_chain) (find_entry-overwrite k e es present)
]

cache_get_fresh :
    (later : ℕ) (r : ResponseCache) (method host : Bytes) (port : ℕ) (path : Bytes) {e : CacheEntry}
    → lookup_entry r (make_cache_key method host port path) ≡ some e
    → later * 1000 < e.cached_at * 1000 + e.ttl_ms
    → cache_get true true later r method host port path ≡ (
      record r { stat_cache_hits = incr64 r.stat_cache_hits },
      some (e.response_data, e.status_code),
    )
unfolding cache_get lookup_entry
cache_get_fresh later r method host port path {e} found fresh =
    let test : ltb (later * 1000) (e.cached_at * 1000 + e.ttl_ms) ≡ true = ground arith in
    rw found (rw (test, answer))

cache_get_stale :
    (later : ℕ) (r : ResponseCache) (method host : Bytes) (port : ℕ) (path : Bytes) {e : CacheEntry}
    → lookup_entry r (make_cache_key method host port path) ≡ some e
    → e.cached_at * 1000 + e.ttl_ms ≤ later * 1000
    → (cache_get true true later r method host port path).1 ≡ none
unfolding cache_get lookup_entry
cache_get_stale later r method host port path {e} found old =
    let test : ltb (later * 1000) (e.cached_at * 1000 + e.ttl_ms) ≡ false = ground arith in
    rw found (rw (test, answer))

-- The entry that a response becomes.
abbrev pub stored : ResponseCache → ℕ → Bytes → Bytes → ℕ → CacheEntry
stored r now key response status_code = record {
  key = key;
  response_data = response;
  status_code = status_code;
  cached_at = now;
  ttl_ms = r.cache_ttl_ms;
}

abbrev pub Storable : Bytes → Type 0
Storable response = (0 < length response) × (length response ≤ max_response_size)

-- A response of 1 to 2^20 bytes whose copies can be allocated becomes the entry of its request's
-- key, and the entry of every other key stays as it was.
pub cache_put-table :
    (now : ℕ) (r : ResponseCache) (method host : Bytes) (port : ℕ) (path response : Bytes)
    (status_code : ℕ) (k : Bytes)
    → Storable response
    → let key = make_cache_key method host port path in
      lookup_entry (cache_put true true now r method host port path (bytes response) status_code) k
      ≡ (if bytes_eq key k then some (stored r now key response status_code) else lookup_entry r k)
unfolding cache_put lookup_entry
cache_put-table now r method host port path response status_code k fits =
    let key = make_cache_key method host port path in
    let bucket = cache_hash key in
    let e = stored r now key response status_code in
    let size : (length response == 0 || ltb max_response_size (length response)) ≡ false =
      ground arith in
    let chain = find_entry-put_chain k e (r.cache_buckets bucket) in
    rw size (elim (Bool-cases (bucket == cache_hash k)) [
      | inl same ↦ rw same (
          chain
          ∙ ap (λ b. if bytes_eq key k then some e else find_entry k (r.cache_buckets b))
              ((==_iff bucket (cache_hash k)).0 same))
      | inr other ↦ rw other (elim (Bool-cases (bytes_eq key k)) [
        | inl equal ↦
            let h = ap cache_hash ((bytes_eq_iff key k).0 equal) in
            absurd (cc ((==_iff bucket (cache_hash k)).1 h))
        | inr different ↦ rw different refl
      ])
    ])

-- A response that cannot be stored, for its size or for lack of memory, changes nothing.
pub cache_put_refused :
    (key_ok data_ok : Bool) (now : ℕ) (r : ResponseCache) (method host : Bytes) (port : ℕ)
    (path response : Bytes) (status_code : ℕ)
    → (key_ok && data_ok ≡ false) ⊎ (¬ Storable response)
    → cache_put key_ok data_ok now r method host port path (bytes response) status_code ≡ r
unfolding cache_put
cache_put_refused key_ok data_ok now r method host port path response status_code no_room =
    ground arith

-- A request whose response was stored gets that response and its status until `cache_ttl_ms` has
-- passed, if the copy can be allocated; the answer counts as a hit.
pub cache_get-cache_put :
    (now later : ℕ) (r : ResponseCache) (method host : Bytes) (port : ℕ) (path response : Bytes)
    (status_code : ℕ)
    → Storable response
    → later * 1000 < now * 1000 + r.cache_ttl_ms
    → let r' = cache_put true true now r method host port path (bytes response) status_code in
      cache_get true true later r' method host port path
      ≡ (record r' { stat_cache_hits = incr64 r'.stat_cache_hits }, some (response, status_code))
cache_get-cache_put now later r method host port path response status_code fits fresh =
    let key = make_cache_key method host port path in
    let r' = cache_put true true now r method host port path (bytes response) status_code in
    let found : lookup_entry r' key ≡ some (stored r now key response status_code) =
      cache_put-table now r method host port path response status_code key fits
      ∙ rw (bytes_eq_refl key) in
    cache_get_fresh later r' method host port path found fresh

-- From the moment that `cache_ttl_ms` has passed the stored response is not served.
pub cache_get_expired :
    (now later : ℕ) (r : ResponseCache) (method host : Bytes) (port : ℕ) (path response : Bytes)
    (status_code : ℕ)
    → Storable response
    → now * 1000 + r.cache_ttl_ms ≤ later * 1000
    → let r' = cache_put true true now r method host port path (bytes response) status_code in
      (cache_get true true later r' method host port path).1 ≡ none
cache_get_expired now later r method host port path response status_code fits old =
    let key = make_cache_key method host port path in
    let r' = cache_put true true now r method host port path (bytes response) status_code in
    let found : lookup_entry r' key ≡ some (stored r now key response status_code) =
      cache_put-table now r method host port path response status_code key fits
      ∙ rw (bytes_eq_refl key) in
    cache_get_stale later r' method host port path found old
