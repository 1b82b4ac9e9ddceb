-- ===== src/Memory/Regions.antt =====
-- A write changes its own region and no other.
use vmod_wasm.Base.{
  inl, inr, Bool-cases, Option, none, ℕ, zero, suc, ◌+◌, ◌≡◌, ◌≤◌, refl, ap, arith, true, false,
  some, ltb, [], ◌∷◌, length, Bytes,
}
use vmod_wasm.Memory.{Guest, copy_to, read_at, validate_region, failed, write_word, write_u32}

pub length-copy_to :
    (m : Bytes) (offset : ℕ) (content : Bytes) → length (copy_to m offset content) ≡ length m
unfolding copy_to
length-copy_to [] offset content = refl
length-copy_to (x ∷ m) zero [] = refl
length-copy_to (x ∷ m) zero (d ∷ content) = ap suc (length-copy_to m zero content)
length-copy_to (x ∷ m) (suc offset) content = ap suc (length-copy_to m offset content)

pub read_at-copy_to :
    (m : Bytes) (offset : ℕ) (content : Bytes)
    → offset + length content ≤ length m
    → read_at (copy_to m offset content) offset (length content) ≡ content
unfolding copy_to
read_at-copy_to [] zero [] h = refl
read_at-copy_to [] zero (d ∷ content) h = absurd (omega arith)
read_at-copy_to [] (suc offset) content h = absurd (omega arith)
read_at-copy_to (x ∷ m) zero [] h = refl
read_at-copy_to (x ∷ m) zero (d ∷ content) h =
    ap (◌∷◌ d) (read_at-copy_to m zero content (omega arith))
read_at-copy_to (x ∷ m) (suc offset) content h = read_at-copy_to m offset content (omega arith)

pub read_at-copy_to_before :
    (m : Bytes) (offset : ℕ) (content : Bytes) (o n : ℕ)
    → o + n ≤ offset
    → read_at (copy_to m offset content) o n ≡ read_at m o n
unfolding copy_to
read_at-copy_to_before [] offset content o n h = refl
read_at-copy_to_before (x ∷ m) zero [] zero zero h = refl
read_at-copy_to_before (x ∷ m) zero (d ∷ content) zero zero h = refl
read_at-copy_to_before (x ∷ m) zero content zero (suc n) h = absurd (omega arith)
read_at-copy_to_before (x ∷ m) zero content (suc o) n h = absurd (omega arith)
read_at-copy_to_before (x ∷ m) (suc offset) content zero zero h = refl
read_at-copy_to_before (x ∷ m) (suc offset) content zero (suc n) h =
    ap (◌∷◌ x) (read_at-copy_to_before m offset content zero n (omega arith))
read_at-copy_to_before (x ∷ m) (suc offset) content (suc o) n h =
    read_at-copy_to_before m offset content o n (omega arith)

pub read_at-copy_to_behind :
    (m : Bytes) (offset : ℕ) (content : Bytes) (o n : ℕ)
    → offset + length content ≤ o
    → read_at (copy_to m offset content) o n ≡ read_at m o n
unfolding copy_to
read_at-copy_to_behind [] offset content o n h = refl
read_at-copy_to_behind (x ∷ m) zero [] o n h = refl
read_at-copy_to_behind (x ∷ m) zero (d ∷ content) zero n h = absurd (omega arith)
read_at-copy_to_behind (x ∷ m) zero (d ∷ content) (suc o) n h =
    read_at-copy_to_behind m zero content o n (omega arith)
read_at-copy_to_behind (x ∷ m) (suc offset) content zero n h = absurd (omega arith)
read_at-copy_to_behind (x ∷ m) (suc offset) content (suc o) n h =
    read_at-copy_to_behind m offset content o n (omega arith)

pub validate_region_fits :
    (m : Bytes) (offset len : ℕ)
    → offset + len ≤ length m
    → validate_region (some m) offset len ≡ true
unfolding validate_region
validate_region_fits m offset len h =
    let test : ltb (length m) (offset + len) ≡ false = ground arith in rw test refl

write_word_refused :
    (g : Guest) (offset value : ℕ) (o : Option Bytes)
    → (write_word g offset value o).1 ≡ failed
    → (write_word g offset value o).0 ≡ g
unfolding write_word
write_word_refused g offset value none h = refl
write_word_refused g offset value (some m) h = absurd (ground arith)

-- A write of a word that is refused changes nothing.
pub write_u32_refused :
    (g : Guest) (offset value : ℕ)
    → (write_u32 g offset value).1 ≡ failed
    → (write_u32 g offset value).0 ≡ g
unfolding write_u32
write_u32_refused g offset value h = elim (Bool-cases (validate_region g.memory offset 4)) [
  | inr bad ↦ rw (bad, write_u32) refl
  | inl good ↦
      rw (good, write_u32) (write_word_refused g offset value g.memory (rw (good, write_u32) at h))
]
