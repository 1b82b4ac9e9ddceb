-- ===== src/Headers/Wire/RoundTrip.antt =====
-- The reader takes from a serialized map the pairs that the writer put there.
use mathlib.Core.List.{append_assoc}
use vmod_wasm.Base.{
  ℕ, ◌+◌, ◌*◌, ◌%◌, ◌^◌, ◌≡◌, ◌≤◌, ◌<◌, refl, sym, ap, ◌∙◌, arith, true, false, List, [], ◌∷◌, ◌++◌,
  map, ltb, length, length-append, Bytes,
}
use vmod_wasm.Memory.{read_at, word_bytes}
use vmod_wasm.Headers.Wire.{
  Pair, sizes_of, data_of, serialize, data_size, total_size, word_of, word_at, is_taken, span_at,
  end_of, read_spans, pair_at, read_pairs,
}

read_at-append :
    (before content after : Bytes)
    → read_at (before ++ (content ++ after)) (length before) (length content) ≡ content
read_at-append [] [] after = refl
read_at-append [] (x ∷ content) after = ap (◌∷◌ x) (read_at-append [] content after)
read_at-append (x ∷ before) content after = read_at-append before content after

word_of-word_bytes : (v : ℕ) → v < 2 ^ 32 → word_of (word_bytes v) ≡ v
word_of-word_bytes v h = omega arith

word_at-append :
    (before : Bytes) (v : ℕ) (after : Bytes)
    → v < 2 ^ 32
    → word_at (before ++ (word_bytes v ++ after)) (length before) ≡ v
word_at-append before v after h =
    ap word_of (read_at-append before (word_bytes v) after) ∙ word_of-word_bytes v h

length-sizes_of : (ps : List Pair) → length (sizes_of ps) ≡ length ps * 8
length-sizes_of [] = refl
length-sizes_of ((key, value) ∷ ps) = omega (arith, length-sizes_of ps)

length-data_of : (ps : List Pair) → length (data_of ps) ≡ data_size ps
length-data_of [] = refl
length-data_of ((key, value) ∷ ps) =
    let a = length-append key (0 ∷ (value ++ (0 ∷ data_of ps))) in
    let b = length-append value (0 ∷ data_of ps) in omega (arith, length-data_of ps)

-- The writer fills the size that it allocates, no less and no more.
pub length-serialize : (ps : List Pair) → length (serialize ps) ≡ total_size ps
unfolding serialize
length-serialize ps =
    let a = length-append (sizes_of ps) (data_of ps) in
    omega (arith, length-sizes_of ps, length-data_of ps)

-- The pairs that the reader does not pass over.
abbrev pub IsTaken : Pair → Type 0
IsTaken (key, value) = (0 < length key) × (length key < 256) × (length value < 4096)

abbrev pub AllTaken : List Pair → Type 0
AllTaken [] = Unit {0}
AllTaken (p ∷ ps) = IsTaken p × AllTaken ps

read_at_eq :
    (content before x after : Bytes) (n m : ℕ)
    → content ≡ before ++ (x ++ after)
    → n ≡ length before
    → m ≡ length x
    → read_at content n m ≡ x
read_at_eq content before x after n m e p q = rw (e, p, q) (read_at-append before x after)

word_at_eq :
    (content before : Bytes) (v : ℕ) (after : Bytes) (n : ℕ)
    → content ≡ before ++ (word_bytes (v % 2 ^ 32) ++ after)
    → n ≡ length before
    → v < 2 ^ 32
    → word_at content n ≡ v
word_at_eq content before v after n e p h =
    let small : v % 2 ^ 32 ≡ v = omega arith in rw (e, p, small) (word_at-append before v after h)

-- The next entry of a serialized map, its sizes behind `a` and its key and value behind `b`.
module _ (key value : Bytes) (ps : List Pair) (a b content : Bytes)
    (e : content ≡ a ++ (sizes_of ((key, value) ∷ ps) ++ (b ++ data_of ((key, value) ∷ ps)))) where
  sizes_there :
      content
      ≡ a
        ++ (word_bytes (length key % 2 ^ 32)
            ++ (word_bytes (length value % 2 ^ 32)
                ++ (sizes_of ps ++ (b ++ data_of ((key, value) ∷ ps)))))
  sizes_there = e ∙ simp append_assoc

  value_size_there :
      content
      ≡ (a ++ word_bytes (length key % 2 ^ 32))
        ++ (word_bytes (length value % 2 ^ 32)
            ++ (sizes_of ps ++ (b ++ data_of ((key, value) ∷ ps))))
  value_size_there = e ∙ simp append_assoc

  key_there :
      content
      ≡ (a ++ (sizes_of ((key, value) ∷ ps) ++ b)) ++ (key ++ (0 ∷ (value ++ (0 ∷ data_of ps))))
  key_there = e ∙ simp append_assoc

  value_there :
      content
      ≡ (a ++ (sizes_of ((key, value) ∷ ps) ++ (b ++ (key ++ 0 ∷ []))))
        ++ (value ++ (0 ∷ data_of ps))
  value_there = e ∙ simp append_assoc

  rest_there :
      content
      ≡ (a ++ (word_bytes (length key % 2 ^ 32) ++ word_bytes (length value % 2 ^ 32)))
        ++ (sizes_of ps ++ ((b ++ (key ++ (0 ∷ (value ++ 0 ∷ [])))) ++ data_of ps))
  rest_there = e ∙ simp append_assoc

read_spans_lem :
    (ps : List Pair) (i offset : ℕ) (a b content : Bytes)
    → content ≡ a ++ (sizes_of ps ++ (b ++ data_of ps))
    → length a ≡ 4 + i * 8
    → offset ≡ length a + length ps * 8 + length b
    → length content < 2 ^ 32
    → AllTaken ps
    → map (pair_at content) (read_spans (length ps) i offset content) ≡ ps
unfolding read_spans
read_spans_lem [] i offset a b content e la lo small taken = refl
read_spans_lem ((key, value) ∷ ps) i offset a b content e la lo small ((k0, k1, v1), taken) =
    let ks : word_at content (4 + i * 8) ≡ length key =
      word_at_eq content a (length key) _ (4 + i * 8) (sizes_there key value ps a b content e)
        (omega arith) (omega arith) in
    let vs : word_at content (4 + i * 8 + 4) ≡ length value =
      word_at_eq content (a ++ word_bytes (length key % 2 ^ 32)) (length value) _ (4 + i * 8 + 4)
        (value_size_there key value ps a b content e)
        (omega (arith, length-append a (word_bytes (length key % 2 ^ 32)))) (omega arith) in
    let before = a ++ (sizes_of ((key, value) ∷ ps) ++ b) in
    let l1 : length before ≡ offset = omega (
      arith,
      length-append a (sizes_of ((key, value) ∷ ps) ++ b),
      length-append (sizes_of ((key, value) ∷ ps)) b,
      length-sizes_of ((key, value) ∷ ps),
    ) in
    let l2 : length content ≡ offset + (length key + 1 + (length value + 1 + length (data_of ps))) =
      ap length (key_there key value ps a b content e)
      ∙ omega (
        arith,
        length-append before (key ++ (0 ∷ (value ++ (0 ∷ data_of ps)))),
        length-append key (0 ∷ (value ++ (0 ∷ data_of ps))),
        length-append value (0 ∷ data_of ps),
      ) in
    let fits : ltb (length content) (end_of (span_at content i offset)) ≡ false =
      let f : end_of (span_at content i offset) ≤ length content = omega arith in ground arith in
    let is_ok : is_taken (span_at content i offset) ≡ true = ground arith in
    let val_at : (span_at content i offset).val_at ≡ offset + length key + 1 = omega arith in
    let next : ((span_at content i offset).val_at + (span_at content i offset).val_size + 1)
          % 2 ^ 32
        ≡ offset + (length key + 1 + (length value + 1)) =
      omega arith in
    let key_read : read_at content offset (word_at content (4 + i * 8)) ≡ key =
      read_at_eq content before key _ offset _ (key_there key value ps a b content e) (sym l1) ks in
    let value_read : read_at content (span_at content i offset).val_at
          (word_at content (4 + i * 8 + 4))
        ≡ value =
      read_at_eq content (a ++ (sizes_of ((key, value) ∷ ps) ++ (b ++ (key ++ 0 ∷ [])))) value _ _ _
        (value_there key value ps a b content e)
        (omega (
          arith,
          length-append a (sizes_of ((key, value) ∷ ps) ++ (b ++ (key ++ 0 ∷ []))),
          length-append (sizes_of ((key, value) ∷ ps)) (b ++ (key ++ 0 ∷ [])),
          length-append b (key ++ 0 ∷ []),
          length-append key (0 ∷ []),
          length-sizes_of ((key, value) ∷ ps),
        ))
        vs in
    let a2 = a ++ (word_bytes (length key % 2 ^ 32) ++ word_bytes (length value % 2 ^ 32)) in
    let b2 = b ++ (key ++ (0 ∷ (value ++ 0 ∷ []))) in
    let la2 : length a2 ≡ length a + 8 = omega (
      arith,
      length-append a (word_bytes (length key % 2 ^ 32) ++ word_bytes (length value % 2 ^ 32)),
    ) in
    let lb2 : length b2 ≡ length b + (length key + 1 + (length value + 1)) = omega (
      arith,
      length-append b (key ++ (0 ∷ (value ++ 0 ∷ []))),
      length-append key (0 ∷ (value ++ 0 ∷ [])),
      length-append value (0 ∷ []),
    ) in
    let ih =
      read_spans_lem ps (i + 1) (offset + (length key + 1 + (length value + 1))) a2 b2 content
        (rest_there key value ps a b content e) (omega arith) (omega arith) small taken in
    rw (fits, is_ok, next, ih, key_read, value_read) refl

pub word_at-serialize : (ps : List Pair) → length ps < 2 ^ 32 → word_at (serialize ps) 0 ≡ length ps
unfolding serialize
word_at-serialize ps small = word_at-append [] (length ps) (sizes_of ps ++ data_of ps) small

pub read_spans-serialize :
    (ps : List Pair)
    → AllTaken ps
    → total_size ps < 2 ^ 32
    → map (pair_at (serialize ps)) (read_spans (length ps) 0 (4 + length ps * 8) (serialize ps))
      ≡ ps
unfolding serialize
read_spans-serialize ps taken small =
    let l = length-serialize ps in
    read_spans_lem ps 0 (4 + length ps * 8) (word_bytes (length ps)) [] (serialize ps) refl refl
      (omega arith) (omega arith) taken

-- A serialized map of less than 4 GiB, with keys of 1 to 255 bytes and values of up to 4095 bytes, is
-- read back as the pairs that it was made of, in their order.
pub read_pairs-serialize :
    (ps : List Pair) → AllTaken ps → total_size ps < 2 ^ 32 → read_pairs (serialize ps) ≡ ps
unfolding read_pairs
read_pairs-serialize ps taken small =
    rw (word_at-serialize ps (omega arith), read_pairs) (read_spans-serialize ps taken small)
