-- ===== src/Headers/Wire/Regions.antt =====
-- What the reader reads, it reads inside the region that was checked.
use vmod_wasm.Base.{
  ℕ, zero, suc, ◌+◌, ◌%◌, ◌^◌, ◌≡◌, ◌≤◌, ◌<◌, inl, inr, arith, true, false, List, [], ◌∷◌, ltb,
  Bool-cases, length, Bytes,
}
use vmod_wasm.Headers.Wire.{Span, is_taken, span_at, end_of, read_spans}

-- Key and value, each with the byte behind it, lie in a region of `len` bytes, the value behind the key.
pub record IsInside (len : ℕ) (s : Span) : Type 0 where
  pub key_inside : s.key_at + s.key_size + 1 ≤ s.val_at
  pub val_inside : s.val_at + s.val_size + 1 ≤ len

abbrev pub AllInside : ℕ → List Span → Type 0
AllInside len [] = Unit {0}
AllInside len (s ∷ ss) = IsInside len s × AllInside len ss

span-IsInside :
    (content : Bytes) (i offset : ℕ)
    → length content + 4352 < 2 ^ 32
    → offset ≤ length content
    → is_taken (span_at content i offset) ≡ true
    → ltb (length content) (end_of (span_at content i offset)) ≡ false
    → IsInside (length content) (span_at content i offset)
span-IsInside content i offset small start taken fits =
    let k : (span_at content i offset).key_size < 256 = ground arith in
    let v : (span_at content i offset).val_size < 4096 = ground arith in
    let f : end_of (span_at content i offset) ≤ length content = ground arith in
    record { key_inside = omega arith; val_inside = omega arith }

-- The guest chooses the number of pairs and all sizes, and the sums wrap around at 2^32. Still, in a
-- region that is more than 4352 bytes short of 4 GiB, every key and value that is taken lies inside the
-- region with the byte behind it.
pub read_spans-AllInside :
    (n i offset : ℕ) (content : Bytes)
    → length content + 4352 < 2 ^ 32
    → offset ≤ length content
    → AllInside (length content) (read_spans n i offset content)
unfolding read_spans
read_spans-AllInside zero i offset content small start = tt
read_spans-AllInside (suc n) i offset content small start =
    elim (Bool-cases (ltb (length content) (end_of (span_at content i offset)))) [
      | inl over ↦ rw over tt
      | inr fits ↦
          let next =
            ((span_at content i offset).val_at + (span_at content i offset).val_size + 1)
            % 2 ^ 32 in
          let ih = read_spans-AllInside n (i + 1) next content small (ground arith) in
          elim (Bool-cases (is_taken (span_at content i offset))) [
            | inl taken ↦
                rw (fits, taken) (span-IsInside content i offset small start taken fits, ih)
            | inr skipped ↦ rw (fits, skipped) ih
          ]
    ]
