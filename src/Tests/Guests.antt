-- ===== src/Tests/Guests.antt =====
-- A guest with a memory of sixteen bytes.
use vmod_wasm.Base.{ℕ, refl, inl, inr, arith, [], ◌∷◌, replicate, Option, some, Bytes, bytes}
use vmod_wasm.Memory.{Guest, return_bytes}
use vmod_wasm.Memory.Returns.{Delivered, return_bytes-Delivered}

-- The allocator always answers 8.
abbrev allocate : ℕ → Option Bytes → Option Bytes × Option ℕ
allocate size m = (m, some 8)

abbrev guest : Guest
guest = record { memory = some (replicate 16 0); allocator = some allocate }

return_bytes-Delivered_example :
    Delivered (replicate 16 0) (7 ∷ 8 ∷ []) 8 0 4 (return_bytes guest (bytes (7 ∷ 8 ∷ [])) 0 4)
return_bytes-Delivered_example =
    return_bytes-Delivered guest allocate (replicate 16 0) (7 ∷ 8 ∷ []) 8 0 4 refl refl
      (omega arith) (omega arith) (omega arith) (omega arith) (omega arith) (inr (omega arith))
      (inr (omega arith)) (inl (omega arith))
