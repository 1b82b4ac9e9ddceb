-- ===== src/Headers/Wire.antt =====
-- The serialized form of a header map in src/proxy_wasm_headers.c: the number of pairs, the sizes of
-- each key and value, then each key and value with a NUL behind it. Sizes and offsets have 32 bits, the
-- lowest byte first. The writer stands in proxy_get_header_map_pairs, the reader in
-- proxy_set_header_map_pairs.
pub mod RoundTrip
pub mod Regions
use vmod_wasm.Base.{
  ℕ, zero, suc, ◌+◌, ◌*◌, ◌%◌, ◌^◌, Bool, true, false, ◌&&◌, List, [], ◌∷◌, ◌++◌, map, ltb,
  if◌then◌else◌, length, Bytes,
}
use vmod_wasm.Memory.{read_at, word_bytes}

abbrev pub Pair : Type 0
Pair = Bytes × Bytes

abbrev pub sizes_of : List Pair → Bytes
sizes_of [] = []
sizes_of ((key, value) ∷ ps) =
    word_bytes (length key % 2 ^ 32) ++ (word_bytes (length value % 2 ^ 32) ++ sizes_of ps)

abbrev pub data_of : List Pair → Bytes
data_of [] = []
data_of ((key, value) ∷ ps) = key ++ (0 ∷ (value ++ (0 ∷ data_of ps)))

unfoldable pub serialize : List Pair → Bytes
serialize ps = word_bytes (length ps) ++ (sizes_of ps ++ data_of ps)

-- The bytes of the keys, the values and their NULs.
abbrev pub data_size : List Pair → ℕ
data_size [] = 0
data_size ((key, value) ∷ ps) = length key + 1 + (length value + 1) + data_size ps

-- The size that the writer allocates.
abbrev pub total_size : List Pair → ℕ
total_size ps = 4 + length ps * 8 + data_size ps

abbrev pub word_of : Bytes → ℕ
word_of [] = 0
word_of (a ∷ bs) = a + 256 * word_of bs

-- `memcpy(&x, data + offset, 4)`.
abbrev pub word_at : Bytes → ℕ → ℕ
word_at content offset = word_of (read_at content offset 4)

-- A key and a value that the reader takes: their offsets and sizes.
pub record Span : Type 0 where
  pub key_at : ℕ
  pub key_size : ℕ
  pub val_at : ℕ
  pub val_size : ℕ

abbrev pub is_taken : Span → Bool
is_taken s = ltb 0 s.key_size && (ltb s.key_size 256 && ltb s.val_size 4096)

abbrev pub span_at : Bytes → ℕ → ℕ → Span
span_at content i offset =
    let key_size = word_at content (4 + i * 8) in
    record {
      key_at = offset;
      key_size = key_size;
      val_at = (offset + key_size + 1) % 2 ^ 32;
      val_size = word_at content (4 + i * 8 + 4);
    }

-- Where the span ends, in 32 bits, as the test before it computes that.
abbrev pub end_of : Span → ℕ
end_of s = (s.key_at + s.key_size + 1 + s.val_size + 1) % 2 ^ 32

-- The rounds of the reader's loop from `i` on, `n` of them left, over a region that is `content`.
pub read_spans : ℕ → ℕ → ℕ → Bytes → List Span
read_spans zero i offset content = []
read_spans (suc n) i offset content =
    let s = span_at content i offset in
    let rest = read_spans n (i + 1) ((s.val_at + s.val_size + 1) % 2 ^ 32) content in
    if ltb (length content) (end_of s) then [] else if is_taken s then s ∷ rest else rest

abbrev pub pair_at : Bytes → Span → Pair
pair_at content s = (read_at content s.key_at s.key_size, read_at content s.val_at s.val_size)

-- The pairs that the loop takes out of a region.
pub read_pairs : Bytes → List Pair
unfolding read_spans
read_pairs content =
    let n = word_at content 0 in map (pair_at content) (read_spans n 0 (4 + n * 8) content)
