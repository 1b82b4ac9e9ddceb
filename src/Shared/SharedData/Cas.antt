-- ===== src/Shared/SharedData/Cas.antt =====
-- What a client of the store sees: the last value written, optimistic locking by CAS values, and keys
-- that the store loses.
use vmod_wasm.Base.{
  ℕ, ◌+◌, ◌%◌, ◌^◌, ◌≤◌, ◌<◌, ◌≡◌, ◌≢◌, refl, ap, ◌∙◌, inl, inr, Bool, true, false, List, [], ◌∷◌,
  Option, none, some, arith, ltb, ◌==◌, if◌then◌else◌, Bool-cases, incr32, length, take, strlen,
  IsCString, Bytes, bytes_eq, bytes_eq_iff, bytes_eq_refl, Slice, null, bytes, slice_len,
}
use vmod_wasm.Shared.SharedData.{
  SharedEntry, Buckets, bucket_of, max_key, max_value, matches, find_entry, updated, set_ok,
  cas_mismatch, set_copied, copy_value, copy_out, shared_data_get, shared_data_set,
}
use vmod_wasm.Shared.SharedData.Lookup.{
  lookup_entry, entry_after, Mismatch, set_copied_written, set_copied-Mismatch,
}

-- A key and a value that the store takes.
pub record Fits (key : Bytes) (value : Slice) : Type 0 where
  pub some_key : 0 < length key
  pub short_key : length key ≤ max_key
  pub short_value : slice_len value ≤ max_value

-- The copy of a value, where memory is at hand.
abbrev pub copied : Slice → Option Bytes
copied (null n) = none
copied (bytes b) = if ltb 0 (length b) then some b else none

copy_value-copied : (value : Slice) → copy_value true value ≡ some (copied value)
copy_value-copied (null n) = refl
copy_value-copied (bytes b) = ground arith

shared_data_set_lem :
    (entry_ok : Bool) (buckets : Buckets) (key : Bytes) (value : Slice) (cas : ℕ)
    → Fits key value
    → shared_data_set true entry_ok buckets (bytes key) value cas
      ≡ set_copied entry_ok buckets key (copied value) (slice_len value) cas
unfolding shared_data_set
shared_data_set_lem entry_ok buckets key value cas f =
    let a : (length key == 0) ≡ false = let h = f.some_key in ground arith in
    let b : ltb max_key (length key) ≡ false = let h = f.short_key in ground arith in
    let c : ltb max_value (slice_len value) ≡ false = let h = f.short_value in ground arith in
    rw a (rw b (rw c (rw (copy_value-copied value))))

-- The counter of a key's entry after an accepted write, in 32 bits.
abbrev pub next_cas : Option SharedEntry → ℕ
next_cas none = 1
next_cas (some e) = (e.cas + 1) % 2 ^ 32

-- An entry that is there keeps the key that it was made with.
abbrev pub kept_key : Bytes → Option SharedEntry → Bytes
kept_key key none = key
kept_key key (some e) = e.key

entry_after_lem :
    (key : Bytes) (value : Option Bytes) (n : ℕ) (o : Option SharedEntry)
    → entry_after key value n o
      ≡ record { key = kept_key key o; value = value; value_len = n; cas = next_cas o }
entry_after_lem key value n none = refl
entry_after_lem key value n (some e) = refl

module _ (buckets : Buckets) (key : Bytes) (value : Slice) (cas : ℕ) (f : Fits key value) where
  shared_data_set_entry :
      IsCString key
      → ¬ Mismatch cas (lookup_entry buckets key)
      → ((shared_data_set true true buckets (bytes key) value cas).1 ≡ set_ok)
        × ((j : Bytes)
            → lookup_entry (shared_data_set true true buckets (bytes key) value cas).0 j ≡ (
                if bytes_eq key j
                then some
                    (entry_after key (copied value) (slice_len value) (lookup_entry buckets key))
                else lookup_entry buckets j))
  shared_data_set_entry c fits =
      rw (shared_data_set_lem true buckets key value cas f)
        (set_copied_written buckets key (copied value) (slice_len value) cas c fits)

  -- Where memory is at hand, a write under a key of 1 to `max_key` bytes without NUL, of a value of at most
  -- `max_value` bytes, that is not refused for its CAS value succeeds: the key then has the value, its counter
  -- is 1 where the key is new and otherwise one more than before in 32 bits, so 0 behind the highest, and every
  -- other key keeps its entry.
  pub shared_data_set_written :
      IsCString key
      → ¬ Mismatch cas (lookup_entry buckets key)
      → ((shared_data_set true true buckets (bytes key) value cas).1 ≡ set_ok)
        × ((j : Bytes)
            → lookup_entry (shared_data_set true true buckets (bytes key) value cas).0 j ≡ (
                if bytes_eq key j
                then some (record {
                  key = kept_key key (lookup_entry buckets key);
                  value = copied value;
                  value_len = slice_len value;
                  cas = next_cas (lookup_entry buckets key);
                })
                else lookup_entry buckets j))
  shared_data_set_written c fits =
      let (ok, table) = shared_data_set_entry c fits in
      let e = entry_after_lem key (copied value) (slice_len value) (lookup_entry buckets key) in
      (ok, λ j. table j ∙ ap (λ x. if bytes_eq key j then some x else lookup_entry buckets j) e)

  -- A write with a CAS value other than 0 and the counter of the key's entry changes nothing.
  pub shared_data_set-Mismatch :
      (entry_ok : Bool)
      → Mismatch cas (lookup_entry buckets key)
      → shared_data_set true entry_ok buckets (bytes key) value cas ≡ (buckets, cas_mismatch)
  shared_data_set-Mismatch entry_ok m =
      rw (shared_data_set_lem entry_ok buckets key value cas f)
        (set_copied-Mismatch entry_ok buckets key (copied value) (slice_len value) cas m)

get_found :
    (buckets : Buckets) (key : Bytes) {e : SharedEntry}
    → 0 < length key
    → lookup_entry buckets key ≡ some e
    → shared_data_get true buckets (bytes key) ≡ copy_out true e
unfolding shared_data_get
get_found buckets key {e} pos found =
    let a : (length key == 0) ≡ false = ground arith in rw a (rw found)

copy_out-copied :
    (e : SharedEntry) (v : Bytes)
    → e.value ≡ copied (bytes v)
    → e.value_len ≡ length v
    → copy_out true e
      ≡ some (record { value = copied (bytes v); value_len = length v; cas = e.cas })
unfolding copy_out
copy_out-copied e v a b = elim (Bool-cases (ltb 0 (length v))) [
  | inl long ↦ ground arith
  | inr short ↦ ground arith
]

value-entry_after :
    (key : Bytes) (value : Option Bytes) (n : ℕ) (o : Option SharedEntry)
    → ((entry_after key value n o).value ≡ value) × ((entry_after key value n o).value_len ≡ n)
value-entry_after key value n none = (refl, refl)
value-entry_after key value n (some e) = (refl, refl)

-- The value read back after an accepted write under a key without NUL is the one written, with the
-- counter of the new entry; a value of no bytes is read as NULL.
pub shared_data_get-shared_data_set :
    (buckets : Buckets) (key v : Bytes) (cas : ℕ)
    → Fits key (bytes v)
    → IsCString key
    → ¬ Mismatch cas (lookup_entry buckets key)
    → let buckets' = (shared_data_set true true buckets (bytes key) (bytes v) cas).0 in
      shared_data_get true buckets' (bytes key)
      ≡ some (record {
        value = copied (bytes v);
        value_len = length v;
        cas = (entry_after key (copied (bytes v)) (length v) (lookup_entry buckets key)).cas;
      })
shared_data_get-shared_data_set buckets key v cas f c fits =
    let w = (shared_data_set_entry buckets key (bytes v) cas f c fits).1 key in
    let e = entry_after key (copied (bytes v)) (length v) (lookup_entry buckets key) in
    let (a, b) = value-entry_after key (copied (bytes v)) (length v) (lookup_entry buckets key) in
    get_found (shared_data_set true true buckets (bytes key) (bytes v) cas).0 key {e = e} f.some_key
      (w ∙ rw (bytes_eq_refl key) refl)
    ∙ copy_out-copied e v a b

incr32-ne : (n : ℕ) → n < 2 ^ 32 → incr32 n ≢ n
incr32-ne n h e = omega arith

-- Of two writes with the CAS value that one read gave, the first is accepted, where memory is at hand for it,
-- and the second refused, where memory is at hand for the copy of its value: between them the key's counter
-- has moved on. The key has 1 to `max_key` bytes and no NUL, is not new, and its counter is a 32-bit number
-- other than 0; both values have at most `max_value` bytes.
pub cas_once :
    (buckets : Buckets) (key : Bytes) (v w : Slice) {e : SharedEntry}
    → Fits key v
    → Fits key w
    → IsCString key
    → lookup_entry buckets key ≡ some e
    → e.cas ≢ 0
    → e.cas < 2 ^ 32
    → ((shared_data_set true true buckets (bytes key) v e.cas).1 ≡ set_ok)
      × (let buckets' = (shared_data_set true true buckets (bytes key) v e.cas).0 in
          shared_data_set true true buckets' (bytes key) w e.cas ≡ (buckets', cas_mismatch))
cas_once buckets key v w {e} fv fw c found nonzero word =
    let open_write : ¬ Mismatch e.cas (lookup_entry buckets key) = λ m. (rw found at m).1 refl in
    let (ok, table) = shared_data_set_entry buckets key v e.cas fv c open_write in
    let now : lookup_entry (shared_data_set true true buckets (bytes key) v e.cas).0 key
        ≡ some (updated (copied v) (slice_len v) e) =
      table key ∙ rw (bytes_eq_refl key, found) refl in
    (ok, shared_data_set-Mismatch _ key w e.cas fw true (rw now (nonzero, incr32-ne e.cas word)))

strlen-take :
    (key stored : Bytes)
    → take (length key) stored ≡ key
    → strlen stored ≡ length key
    → IsCString key
strlen-take [] stored t l = refl
strlen-take (c ∷ key) [] t l = absurd (omega arith)
strlen-take (c ∷ key) (x ∷ stored) t l =
    let same : x ≡ c = cc in
    let rest : take (length key) stored ≡ key = cc in
    let tail : strlen stored ≡ length key = ground arith in
    ground (arith, strlen-take key stored rest tail)

find_entry_lost : (key : Bytes) (es : List SharedEntry) → ¬ IsCString key → find_entry key es ≡ none
unfolding find_entry
find_entry_lost key [] h = refl
find_entry_lost key (e ∷ es) h = elim (Bool-cases (matches key e)) [
  | inl hit ↦
      let l : strlen e.key ≡ length key = ground arith in
      let t : take (length key) e.key ≡ key =
        ground (arith, bytes_eq_iff (take (length key) e.key) key) in
      absurd (h (strlen-take key e.key t l))
  | inr miss ↦ rw miss (find_entry_lost key es h)
]

-- A key with a NUL byte is lost: every write under it that has the memory is reported as a success,
-- whatever its CAS value, and no read of it ever finds a value, whatever the store holds.
pub nul_key_lost :
    (buckets : Buckets) (key : Bytes) (value : Slice) (cas : ℕ)
    → Fits key value
    → ¬ IsCString key
    → ((shared_data_set true true buckets (bytes key) value cas).1 ≡ set_ok)
      × ((later : Buckets) (alloc_ok : Bool) → shared_data_get alloc_ok later (bytes key) ≡ none)
unfolding shared_data_get set_copied
nul_key_lost buckets key value cas f nul =
    let lost = find_entry_lost key (buckets (bucket_of key)) nul in
    (
      rw (shared_data_set_lem true buckets key value cas f) (rw (lost, set_copied) refl),
      λ later alloc_ok.
          let a : (length key == 0) ≡ false = let h = f.some_key in ground arith in
          rw a (rw (find_entry_lost key (later (bucket_of key)) nul)),
    )
