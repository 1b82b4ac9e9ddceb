-- ===== src/Memory.antt =====
-- The linear memory of a guest, as src/proxy_wasm_mem.h reads and writes it: pw_validate_region,
-- pw_read_string, pw_write_u32, pw_alloc_wasm, pw_return_bytes. Offsets and lengths are below 2^32,
-- so their sum in 64 bits does not wrap. A number is stored with its lowest byte first.
pub mod Regions
pub mod Returns
use vmod_wasm.Base.{
  ℕ, zero, suc, ◌+◌, ◌-◌, ◌/◌, ◌%◌, ◌^◌, Bool, true, false, not, List, [], ◌∷◌, Option, none, some,
  ltb, leb, ◌==◌, if◌then◌else◌, length, take, drop, Bytes, Slice, null, bytes,
}

-- `memory` is `none` where `memory_valid` is 0 or there is no memory. The allocator, an export of the
-- guest, is given the size and the memory; it leaves a memory, and answers with an address or fails.
pub record Guest : Type 0 where
  pub memory : Option Bytes
  pub allocator : Option (ℕ → Option Bytes → Option Bytes × Option ℕ)

unfoldable pub validate_region : Option Bytes → ℕ → ℕ → Bool
validate_region none offset len = false
validate_region (some m) offset len = if ltb (length m) (offset + len) then false else true

abbrev pub read_at : Bytes → ℕ → ℕ → Bytes
read_at m offset len = take len (drop offset m)

-- `memcpy` to an offset of the memory.
unfoldable pub copy_to : Bytes → ℕ → Bytes → Bytes
copy_to [] offset content = []
copy_to (x ∷ m) zero [] = x ∷ m
copy_to (x ∷ m) zero (d ∷ content) = d ∷ copy_to m zero content
copy_to (x ∷ m) (suc offset) content = x ∷ copy_to m offset content

read_from : Option Bytes → ℕ → ℕ → Option Bytes
read_from none ptr len = none
read_from (some m) ptr len = some (read_at m ptr len)

-- The string that the buffer then holds, before its NUL; `none` is -1.
unfoldable pub read_string : Guest → ℕ → ℕ → ℕ → Option Bytes
unfolding read_from validate_region
read_string g ptr len bufsz =
    if len == 0
    then some []
    else if leb bufsz len
    then none
    else if not (validate_region g.memory ptr len)
    then none
    else read_from g.memory ptr len

abbrev pub word_bytes : ℕ → Bytes
word_bytes v = v % 256 ∷ v / 256 % 256 ∷ v / 65536 % 256 ∷ v / 16777216 % 256 ∷ []

-- 0, -1, or a write behind the end of the memory, which C leaves undefined.
pub data Answer : Type 0 where
  returned failed overrun : Answer

write_word : Guest → ℕ → ℕ → Option Bytes → Guest × Answer
write_word g offset value none = (g, failed)
write_word g offset value (some m) =
    (record g { memory = some (copy_to m offset (word_bytes value)) }, returned)

unfoldable pub write_u32 : Guest → ℕ → ℕ → Guest × Answer
unfolding write_word
write_u32 g offset value =
    if not (validate_region g.memory offset 4)
    then (g, failed)
    else write_word g offset value g.memory

-- The address is cut to 32 bits.
pub alloc_wasm : Guest → ℕ → Guest × Option ℕ
alloc_wasm g size = elim g.allocator [
  | none ↦ (g, none)
  | some allocate ↦
      let (m, ptr) = allocate size g.memory in
      (record g { memory = m }, elim ptr [ none ↦ none | some p ↦ some (p % 2 ^ 32) ])
]

-- The second write is made where the first one returned 0.
pub write_second : ℕ → ℕ → Guest × Answer → Guest × Answer
write_second offset value (g, returned) = write_u32 g offset value
write_second offset value (g, failed) = (g, failed)
write_second offset value (g, overrun) = (g, overrun)

pub write_both : Guest → ℕ → ℕ → ℕ → ℕ → Guest × Answer
unfolding write_second
write_both g data_offset ptr size_offset size =
    write_second size_offset size (write_u32 g data_offset ptr)

-- The copy of all of the data, behind the test of the region with the length cut to 32 bits.
pub copy_data : Guest → Bytes → ℕ → ℕ → ℕ → Option Bytes → Guest × Answer
copy_data g content data_offset size_offset ptr none = (g, failed)
copy_data g content data_offset size_offset ptr (some m) =
    if ltb (length m) (ptr + length content)
    then (g, overrun)
    else write_both (record g { memory = some (copy_to m ptr content) }) data_offset ptr size_offset
        (length content % 2 ^ 32)

pub return_at : Guest × Option ℕ → Bytes → ℕ → ℕ → Guest × Answer
unfolding copy_data
return_at (g, none) content data_offset size_offset = (g, failed)
return_at (g, some ptr) content data_offset size_offset =
    if not (validate_region g.memory ptr (length content % 2 ^ 32))
    then (g, failed)
    else copy_data g content data_offset size_offset ptr g.memory

pub return_bytes : Guest → Slice → ℕ → ℕ → Guest × Answer
return_bytes g (null n) data_offset size_offset = write_both g data_offset 0 size_offset 0
return_bytes g (bytes content) data_offset size_offset =
    if length content == 0
    then write_both g data_offset 0 size_offset 0
    else return_at (alloc_wasm g (length content % 2 ^ 32)) content data_offset size_offset
