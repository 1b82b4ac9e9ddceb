-- ===== src/Memory/Returns.antt =====
-- What pw_return_bytes leaves in the memory.
use vmod_wasm.Base.{
  ℕ, suc, ◌+◌, ◌%◌, ◌^◌, ◌≡◌, ◌≢◌, ◌≤◌, ◌<◌, ◌⊎◌, inl, inr, refl, ◌∙◌, arith, false, Option, none,
  some, ltb, leb, ◌==◌, Bool-cases, Option-cases, length, Bytes, bytes,
}
use vmod_wasm.Memory.{
  Guest, validate_region, copy_to, read_at, read_string, word_bytes, Answer, returned, failed,
  overrun, write_u32, alloc_wasm, write_second, write_both, return_at, return_bytes,
}
use vmod_wasm.Memory.Regions.{
  length-copy_to, read_at-copy_to, read_at-copy_to_before, read_at-copy_to_behind,
}

-- Two regions, each an offset and a length, have no byte in common.
abbrev pub Apart : ℕ → ℕ → ℕ → ℕ → Type 0
Apart o n p k = (o + n ≤ p) ⊎ (p + k ≤ o)

read_at-copy_to-Apart :
    (m : Bytes) (offset : ℕ) (content : Bytes) (o n : ℕ)
    → Apart o n offset (length content)
    → read_at (copy_to m offset content) o n ≡ read_at m o n
read_at-copy_to-Apart m offset content o n (inl before) =
    read_at-copy_to_before m offset content o n before
read_at-copy_to-Apart m offset content o n (inr behind) =
    read_at-copy_to_behind m offset content o n behind

write_u32_fits :
    (g : Guest) (m : Bytes) (offset value : ℕ)
    → g.memory ≡ some m
    → offset + 4 ≤ length m
    → write_u32 g offset value
      ≡ (record g { memory = some (copy_to m offset (word_bytes value)) }, returned)
unfolding write_u32 validate_region
write_u32_fits g m offset value e fits =
    let test : ltb (length m) (offset + 4) ≡ false = ground arith in
    rw (e, write_u32) (simp test refl)

write_u32-overrun : (g : Guest) (offset value : ℕ) → (write_u32 g offset value).1 ≢ overrun
unfolding write_u32
write_u32-overrun g offset value h = elim (Option-cases g.memory) [
  | inl missing ↦ absurd (ground arith)
  | inr (m, e) ↦ absurd (ground arith)
]

write_both_fits :
    (g : Guest) (m : Bytes) (a v b w : ℕ)
    → g.memory ≡ some m
    → a + 4 ≤ length m
    → b + 4 ≤ length m
    → write_both g a v b w ≡ (
      record g { memory = some (copy_to (copy_to m a (word_bytes v)) b (word_bytes w)) },
      returned,
    )
unfolding write_both
write_both_fits g m a v b w e fit_a fit_b =
    rw (write_u32_fits g m a v e fit_a, write_both)
      (write_u32_fits (record g { memory = some (copy_to m a (word_bytes v)) })
        (copy_to m a (word_bytes v)) b w refl
        (let l = length-copy_to m a (word_bytes v) in omega arith))

write_second-overrun :
    (b w : ℕ) (r : Guest × Answer) → r.1 ≢ overrun → (write_second b w r).1 ≢ overrun
unfolding write_second
write_second-overrun b w (g, returned) h = write_u32-overrun g b w
write_second-overrun b w (g, failed) h = h
write_second-overrun b w (g, overrun) h = h

write_both-overrun : (g : Guest) (a v b w : ℕ) → (write_both g a v b w).1 ≢ overrun
unfolding write_both
write_both-overrun g a v b w = write_second-overrun b w (write_u32 g a v) (write_u32-overrun g a v)

return_at-overrun :
    (r : Guest × Option ℕ) (content : Bytes) (a b : ℕ)
    → length content < 2 ^ 32
    → (return_at r content a b).1 ≢ overrun
unfolding return_at validate_region
return_at-overrun (g, none) content a b short h = absurd (cc h)
return_at-overrun (g, some ptr) content a b short h = elim (Option-cases g.memory) [
  | inl missing ↦ absurd (cc (rw (missing, return_at) at h))
  | inr (m, e) ↦ elim (Bool-cases (ltb (length m) (ptr + length content))) [
    | inl over ↦
        let size : length content % 2 ^ 32 ≡ length content = omega arith in
        let h2 : failed ≡ overrun = simp over at (rw (e, size) at h) in absurd (cc h2)
    | inr fits ↦
        let size : length content % 2 ^ 32 ≡ length content = omega arith in
        write_both-overrun (record g { memory = some (copy_to m ptr content) }) a ptr b
          (length content) (simp fits at (rw (e, size) at h))
  ]
]

-- A buffer of less than 4 GiB never makes `pw_return_bytes` write behind the end of the guest's memory,
-- whatever address the guest's allocator answers with, and wherever the results are to go.
pub return_bytes-overrun :
    (g : Guest) (content : Bytes) (data_offset size_offset : ℕ)
    → length content < 2 ^ 32
    → (return_bytes g (bytes content) data_offset size_offset).1 ≢ overrun
unfolding return_bytes
return_bytes-overrun g content a b short = elim (Bool-cases (length content == 0)) [
  | inl empty ↦ rw empty (write_both-overrun g a 0 b 0)
  | inr full ↦
      rw full (return_at-overrun (alloc_wasm g (length content % 2 ^ 32)) content a b short)
]

-- What a successful return leaves: the content at the address, and address and length where they go.
pub record Delivered (m : Bytes) (content : Bytes) (ptr a b : ℕ) (r : Guest × Answer) : Type 0 where
  pub after : Bytes
  pub in_memory : r.0.memory ≡ some after
  pub accepted : r.1 ≡ returned
  pub same_length : length after ≡ length m
  pub read_back : read_string r.0 ptr (length content) (suc (length content)) ≡ some content
  pub content_there : read_at after ptr (length content) ≡ content
  pub ptr_there : read_at after a 4 ≡ word_bytes ptr
  pub size_there : read_at after b 4 ≡ word_bytes (length content)

read_string_there :
    (g : Guest) (m content : Bytes) (ptr : ℕ)
    → g.memory ≡ some m
    → 0 < length content
    → ptr + length content ≤ length m
    → read_at m ptr (length content) ≡ content
    → read_string g ptr (length content) (suc (length content)) ≡ some content
unfolding read_string validate_region
read_string_there g m content ptr e pos fits there =
    let some_text : (length content == 0) ≡ false = ground arith in
    let room : leb (suc (length content)) (length content) ≡ false = ground arith in
    let test : ltb (length m) (ptr + length content) ≡ false = ground arith in
    rw (some_text, room) (rw (e, read_string) (simp test (rw there refl)))

return_at-Delivered :
    (g : Guest) (m content : Bytes) (ptr a b : ℕ)
    → g.memory ≡ some m
    → 0 < length content
    → length content < 2 ^ 32
    → ptr + length content ≤ length m
    → a + 4 ≤ length m
    → b + 4 ≤ length m
    → Apart ptr (length content) a 4
    → Apart ptr (length content) b 4
    → Apart a 4 b 4
    → Delivered m content ptr a b (return_at (g, some ptr) content a b)
unfolding return_at validate_region
return_at-Delivered g m content ptr a b e pos short fits fit_a fit_b pa pb ab =
    let size : length content % 2 ^ 32 ≡ length content = omega arith in
    let test : ltb (length m) (ptr + length content) ≡ false = ground arith in
    let m1 = copy_to m ptr content in
    let m2 = copy_to m1 a (word_bytes ptr) in
    let l1 = length-copy_to m ptr content in
    let l2 = length-copy_to m1 a (word_bytes ptr) in
    let l3 = length-copy_to m2 b (word_bytes (length content)) in
    let done =
      write_both_fits (record g { memory = some m1 }) m1 a ptr b (length content) refl (omega arith)
        (omega arith) in
    let there : read_at (copy_to m2 b (word_bytes (length content))) ptr (length content)
        ≡ content =
      read_at-copy_to-Apart m2 b (word_bytes (length content)) ptr (length content) pb
      ∙ read_at-copy_to-Apart m1 a (word_bytes ptr) ptr (length content) pa
      ∙ read_at-copy_to m ptr content fits in
    rw (e, size, return_at)
      (simp test (
        rw done (record {
          after = copy_to m2 b (word_bytes (length content));
          in_memory = refl;
          read_back =
              read_string_there _ (copy_to m2 b (word_bytes (length content))) content ptr refl pos
                (omega arith) there;
          accepted = refl;
          same_length = l3 ∙ l2 ∙ l1;
          content_there = there;
          ptr_there =
              read_at-copy_to-Apart m2 b (word_bytes (length content)) a 4 ab
              ∙ read_at-copy_to m1 a (word_bytes ptr) (omega arith);
          size_there = read_at-copy_to m2 b (word_bytes (length content)) (omega arith);
        })))

alloc_wasm_answers :
    (g : Guest) (allocate : ℕ → Option Bytes → Option Bytes × Option ℕ) (n : ℕ) (m : Bytes)
    (ptr : ℕ)
    → g.allocator ≡ some allocate
    → allocate n g.memory ≡ (some m, some ptr)
    → ptr < 2 ^ 32
    → alloc_wasm g n ≡ (record g { memory = some m }, some ptr)
unfolding alloc_wasm
alloc_wasm_answers g allocate n m ptr e answer word =
    let small : ptr % 2 ^ 32 ≡ ptr = omega arith in
    rw (e, alloc_wasm) (rw answer (rw small (rw e refl)))

-- A buffer that is not empty is delivered where the guest's allocator leaves a memory of less than
-- 4 GiB and answers with an address that has room for it there, the two places for address and length
-- lie in the memory, and none of the three overlap: the call returns 0, the content stands at the
-- address, where `pw_read_string` finds it, the address and the length stand in their places, lowest
-- byte first, and the memory has the length that the allocator left.
pub return_bytes-Delivered :
    (g : Guest) (allocate : ℕ → Option Bytes → Option Bytes × Option ℕ) (m content : Bytes)
    (ptr data_offset size_offset : ℕ)
    → g.allocator ≡ some allocate
    → allocate (length content) g.memory ≡ (some m, some ptr)
    → 0 < length content
    → ptr + length content ≤ length m
    → length m < 2 ^ 32
    → data_offset + 4 ≤ length m
    → size_offset + 4 ≤ length m
    → Apart ptr (length content) data_offset 4
    → Apart ptr (length content) size_offset 4
    → Apart data_offset 4 size_offset 4
    → Delivered m content ptr data_offset size_offset
        (return_bytes g (bytes content) data_offset size_offset)
unfolding return_bytes
return_bytes-Delivered g allocate m content ptr a b e answer pos fits room fit_a fit_b pa pb ab =
    let size : length content % 2 ^ 32 ≡ length content = omega arith in
    let full : (length content == 0) ≡ false = ground arith in
    rw (full, size)
      (rw (alloc_wasm_answers g allocate (length content) m ptr e answer (omega arith)) (
        return_at-Delivered (record g { memory = some m }) m content ptr a b refl pos (omega arith)
          fits fit_a fit_b pa pb ab))
