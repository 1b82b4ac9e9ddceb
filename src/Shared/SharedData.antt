-- ===== src/Shared/SharedData.antt =====
-- The key-value store of src/proxy_wasm_shared.c: fnv1a, vwasm_shared_data_get and
-- vwasm_shared_data_set. The 64 chains are a function from the bucket to its entries, first to last.
-- Each call holds the lock of the store, so it is one step; its allocations succeed or fail as its
-- Boolean arguments say.
pub mod Lookup
pub mod Cas
use Prim.Native.Nat.{bit_xor}
use vmod_wasm.Base.{
  ℕ, zero, suc, ◌+◌, ◌*◌, ◌%◌, ◌^◌, Bool, true, false, not, ◌&&◌, ◌||◌, List, [], ◌∷◌, ◌++◌, Option,
  none, some, ltb, leb, ◌==◌, if◌then◌else◌, incr32, length, take, strlen, Bytes, bytes_eq, Slice,
  null, bytes, slice_len,
}

-- A `value` of `none` is NULL.
pub record SharedEntry : Type 0 where
  pub key : Bytes
  pub value : Option Bytes
  pub value_len : ℕ
  pub cas : ℕ

abbrev pub Buckets : Type 0
Buckets = ℕ → List SharedEntry

abbrev pub shared_data_buckets : ℕ
shared_data_buckets = 64

abbrev pub max_key : ℕ
max_key = 256

abbrev pub max_value : ℕ
max_value = 65536

fnv1a_from : ℕ → Bytes → ℕ
fnv1a_from hash [] = hash
fnv1a_from hash (c ∷ cs) = fnv1a_from (bit_xor hash c * 16777619 % 2 ^ 32) cs

pub fnv1a : Bytes → ℕ
unfolding fnv1a_from
fnv1a = fnv1a_from 2166136261

abbrev pub bucket_of : Bytes → ℕ
bucket_of key = fnv1a key % shared_data_buckets

-- `strlen(entry->key) == key_len && memcmp(entry->key, key, key_len) == 0`; the entry holds the bytes
-- of its key and a NUL behind them.
abbrev pub matches : Bytes → SharedEntry → Bool
matches key e = strlen e.key == length key && bytes_eq (take (length key) e.key) key

unfoldable pub find_entry : Bytes → List SharedEntry → Option SharedEntry
find_entry key [] = none
find_entry key (e ∷ es) = if matches key e then some e else find_entry key es

-- The value, its length and the CAS counter that `get` hands out.
pub record Got : Type 0 where
  pub value : Option Bytes
  pub value_len : ℕ
  pub cas : ℕ

copy_out : Bool → SharedEntry → Option Got
copy_out alloc_ok e = elim e.value [
  | none ↦ some (record { value = none; value_len = 0; cas = e.cas })
  | some v ↦
      if ltb 0 e.value_len
      then if alloc_ok
        then some (record { value = some v; value_len = e.value_len; cas = e.cas })
        else none
      else some (record { value = none; value_len = 0; cas = e.cas })
]

-- `none` is -1: not found, or no memory.
pub shared_data_get : Bool → Buckets → Slice → Option Got
unfolding copy_out
shared_data_get alloc_ok buckets (null n) = none
shared_data_get alloc_ok buckets (bytes key) =
    if length key == 0 then none else elim (find_entry key (buckets (bucket_of key))) [
      | none ↦ none
      | some e ↦ copy_out alloc_ok e
    ]

pub data SetResult : Type 0 where
  set_ok cas_mismatch set_error : SetResult

-- The entry after an update.
abbrev pub updated : Option Bytes → ℕ → SharedEntry → SharedEntry
updated value value_len e = record e { value = value; value_len = value_len; cas = incr32 e.cas }

pub update_chain : Bytes → Option Bytes → ℕ → List SharedEntry → List SharedEntry
update_chain key value value_len [] = []
update_chain key value value_len (e ∷ es) =
    if matches key e
    then updated value value_len e ∷ es
    else e ∷ update_chain key value value_len es

abbrev pub new_entry : Bytes → Option Bytes → ℕ → SharedEntry
new_entry key value value_len = record { key = key; value = value; value_len = value_len; cas = 1 }

abbrev pub write : Buckets → ℕ → List SharedEntry → Buckets
write buckets i es j = if i == j then es else buckets j

-- With the copy of the value made. `entry_ok` stands for the allocations of a new entry and its key.
pub set_copied : Bool → Buckets → Bytes → Option Bytes → ℕ → ℕ → Buckets × SetResult
unfolding update_chain
set_copied entry_ok buckets key value value_len cas =
    let bucket = bucket_of key in
    let chain = buckets bucket in
    elim (find_entry key chain) [
      | some e ↦
          if not (cas == 0) && not (e.cas == cas)
          then (buckets, cas_mismatch)
          else (write buckets bucket (update_chain key value value_len chain), set_ok)
      | none ↦
          if entry_ok
          then (write buckets bucket (new_entry key value value_len ∷ chain), set_ok)
          else (buckets, set_error)
    ]

-- The copy of the value: NULL where there is nothing to copy. The outer `none` is a failed allocation.
abbrev pub copy_value : Bool → Slice → Option (Option Bytes)
copy_value value_ok (null n) = some none
copy_value value_ok (bytes b) =
    if ltb 0 (length b) then (if value_ok then some (some b) else none) else some none

pub shared_data_set : Bool → Bool → Buckets → Slice → Slice → ℕ → Buckets × SetResult
unfolding set_copied
shared_data_set value_ok entry_ok buckets (null n) value cas = (buckets, set_error)
shared_data_set value_ok entry_ok buckets (bytes key) value cas =
    if length key == 0
    then (buckets, set_error)
    else if ltb max_key (length key)
    then (buckets, set_error)
    else if ltb max_value (slice_len value)
    then (buckets, set_error)
    else elim (copy_value value_ok value) [
      | none ↦ (buckets, set_error)
      | some copy ↦ set_copied entry_ok buckets key copy (slice_len value) cas
    ]
