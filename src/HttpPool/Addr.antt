-- ===== src/HttpPool/Addr.antt =====
-- vwasm_http_addr_is_private of src/http_pool.c: the addresses that a callout must not reach unless
-- its upstream is on the allowlist. An IPv4 address is the number that `ntohl` gives; an IPv6
-- address is its sixteen bytes in order.
use Prim.Native.Nat.{bit_and}
use vmod_wasm.Base.{
  ℕ, ◌+◌, ◌-◌, ◌*◌, ◌/◌, ◌^◌, ◌<◌, ◌≡◌, refl, Bool, true, false, ◌&&◌, ◌||◌, List, [], ◌∷◌, ◌++◌,
  none, some, arith, ltb, leb, ◌==◌, if◌then◌else◌, get_elem?, take, replicate, Bytes, bytes_eq,
}
use vmod_wasm.Base.ByteTable.{holds_below, holds_below_at, same_bool, same_bool→eq}

-- `no_addr` is a NULL pointer; the port is in host order; `other_family` is any other family.
pub data Sockaddr : Type 0 where
  no_addr : Sockaddr
  inet : ℕ → ℕ → Sockaddr
  inet6 : Bytes → ℕ → Sockaddr
  other_family : Sockaddr

-- The AF_INET branch.
unfoldable pub inet_is_private : ℕ → Bool
inet_is_private ip =
    if ip / 2 ^ 24 == 127
    then true
    else if ip / 2 ^ 24 == 10
    then true
    else if ip / 2 ^ 20 == 172 * 2 ^ 4 + 1
    then true
    else if ip / 2 ^ 16 == 192 * 2 ^ 8 + 168
    then true
    else if ip / 2 ^ 16 == 169 * 2 ^ 8 + 254
    then true
    else if ip / 2 ^ 24 == 0
    then true
    else if ip / 2 ^ 22 == 100 * 2 ^ 2 + 1
    then true
    else if ip / 2 ^ 8 == 192 * 2 ^ 16 + 0
    then true
    else if ip / 2 ^ 17 == 198 * 2 ^ 7 + 9
    then true
    else ip / 2 ^ 28 == 15

-- The byte `b[i]` of an address.
abbrev byte_at : Bytes → ℕ → ℕ
byte_at b i = elim (get_elem? b i) [ none ↦ 0 | some c ↦ c ]

-- `ntohl` of the four bytes from `b + 12` on.
abbrev inner_ip : Bytes → ℕ
inner_ip b = ((byte_at b 12 * 256 + byte_at b 13) * 256 + byte_at b 14) * 256 + byte_at b 15

-- The AF_INET6 branch; a mapped IPv4 address is checked as the IPv4 address inside it.
pub inet6_is_private : Bytes → Bool
inet6_is_private b =
    if bytes_eq (take 16 b) (replicate 15 0 ++ 1 ∷ [])
    then true
    else if bytes_eq (take 16 b) (replicate 16 0)
    then true
    else if bit_and (byte_at b 0) 0xfe == 0xfc
    then true
    else if byte_at b 0 == 0xfe && bit_and (byte_at b 1) 0xc0 == 0x80
    then true
    else if bytes_eq (take 12 b) (replicate 10 0 ++ 0xff ∷ 0xff ∷ [])
    then inet_is_private (inner_ip b)
    else false

unfoldable pub addr_is_private : Sockaddr → Bool
unfolding inet_is_private inet6_is_private
addr_is_private no_addr = true
addr_is_private (inet ip port) = inet_is_private ip
addr_is_private (inet6 b port) = inet6_is_private b
addr_is_private other_family = false

-- The blocks that the comments of the code name, by dotted quad and prefix length.
abbrev quad : ℕ → ℕ → ℕ → ℕ → ℕ
quad a b c d = ((a * 256 + b) * 256 + c) * 256 + d

abbrev pub private_blocks : List (ℕ × ℕ)
private_blocks =
    (quad 127 0 0 0, 8)
    ∷ (quad 10 0 0 0, 8)
    ∷ (quad 172 16 0 0, 12)
    ∷ (quad 192 168 0 0, 16)
    ∷ (quad 169 254 0 0, 16)
    ∷ (quad 0 0 0 0, 8)
    ∷ (quad 100 64 0 0, 10)
    ∷ (quad 192 0 0 0, 24)
    ∷ (quad 198 18 0 0, 15)
    ∷ (quad 240 0 0 0, 4)
    ∷ []

-- The address lies between the first and the last address of some block.
abbrev pub in_blocks : ℕ → List (ℕ × ℕ) → Bool
in_blocks ip [] = false
in_blocks ip ((base, len) ∷ blocks) =
    (leb base ip && ltb ip (base + 2 ^ (32 - len))) || in_blocks ip blocks

-- A shifted address equals a shifted base exactly within the block.
block_test :
    (ip size v : ℕ) → 0 < size → (ip / size == v) ≡ (leb (v * size) ip && ltb ip (v * size + size))
block_test ip size v h = grind arith

if_or : (a b : Bool) → (if a then true else b) ≡ (a || b)
if_or a b = ground arith

or_false : (a : Bool) → (a || false) ≡ a
or_false a = ground arith

inet_is_private-in_blocks : (ip : ℕ) → inet_is_private ip ≡ in_blocks ip private_blocks
unfolding inet_is_private
inet_is_private-in_blocks ip =
    rw
      (
        block_test ip (2 ^ 24) 127 (omega arith),
        block_test ip (2 ^ 24) 10 (omega arith),
        block_test ip (2 ^ 20) 2753 (omega arith),
        block_test ip (2 ^ 16) 49320 (omega arith),
        block_test ip (2 ^ 16) 43518 (omega arith),
        block_test ip (2 ^ 24) 0 (omega arith),
        block_test ip (2 ^ 22) 401 (omega arith),
        block_test ip (2 ^ 8) 12582912 (omega arith),
        block_test ip (2 ^ 17) 25353 (omega arith),
        block_test ip (2 ^ 28) 15 (omega arith),
      )
      (simp (if_or, or_false))

-- An IPv4 address is held to be private exactly when it lies in one of the ten blocks
-- 127.0.0.0/8, 10.0.0.0/8, 172.16.0.0/12, 192.168.0.0/16, 169.254.0.0/16, 0.0.0.0/8, 100.64.0.0/10,
-- 192.0.0.0/24, 198.18.0.0/15 and 240.0.0.0/4, whatever its port. No address of another block is, so none of
-- 192.0.2.0/24, 198.51.100.0/24, 203.0.113.0/24, 192.88.99.0/24 and 224.0.0.0/4.
pub addr_is_private-in_blocks :
    (ip port : ℕ) → addr_is_private (inet ip port) ≡ in_blocks ip private_blocks
unfolding addr_is_private
addr_is_private-in_blocks ip port = inet_is_private-in_blocks ip

mask_fe_table :
    holds_below 256 (λ x. same_bool (bit_and x 0xfe == 0xfc) (leb 0xfc x && leb x 0xfd)) ≡ true
unfolding holds_below
mask_fe_table = refl

mask_c0_table :
    holds_below 256 (λ x. same_bool (bit_and x 0xc0 == 0x80) (leb 0x80 x && leb x 0xbf)) ≡ true
unfolding holds_below
mask_c0_table = refl

mask_fe : (x : ℕ) → x < 256 → (bit_and x 0xfe == 0xfc) ≡ (leb 0xfc x && leb x 0xfd)
mask_fe x h = same_bool→eq _ _ (holds_below_at 256 _ x mask_fe_table h)

mask_c0 : (x : ℕ) → x < 256 → (bit_and x 0xc0 == 0x80) ≡ (leb 0x80 x && leb x 0xbf)
mask_c0 x h = same_bool→eq _ _ (holds_below_at 256 _ x mask_c0_table h)

-- ::1, ::, fc00::/7, fe80::/10, and ::ffff:0:0/96 where the inner address is in a block.
abbrev pub in_blocks6 : Bytes → Bool
in_blocks6 b =
    bytes_eq (take 16 b) (replicate 15 0 ++ 1 ∷ [])
    || (bytes_eq (take 16 b) (replicate 16 0)
        || ((leb 0xfc (byte_at b 0) && leb (byte_at b 0) 0xfd)
            || ((byte_at b 0 == 0xfe && (leb 0x80 (byte_at b 1) && leb (byte_at b 1) 0xbf))
                || (bytes_eq (take 12 b) (replicate 10 0 ++ 0xff ∷ 0xff ∷ [])
                    && in_blocks (inner_ip b) private_blocks))))

if_and : (a b : Bool) → (if a then b else false) ≡ (a && b)
if_and a b = ground arith

inet6_is_private-in_blocks6 :
    (b : Bytes) → byte_at b 0 < 256 → byte_at b 1 < 256 → inet6_is_private b ≡ in_blocks6 b
unfolding inet6_is_private
inet6_is_private-in_blocks6 b h0 h1 =
    rw (mask_fe (byte_at b 0) h0, mask_c0 (byte_at b 1) h1, inet_is_private-in_blocks (inner_ip b))
      (simp (if_or, if_and))

-- An IPv6 address, given by its bytes, is held to be private exactly when it is ::1 or ::, lies in
-- fc00::/7 or fe80::/10, or is an IPv4-mapped address whose IPv4 address lies in one of the ten
-- private blocks.
pub addr_is_private-in_blocks6 :
    (b : Bytes) (port : ℕ)
    → byte_at b 0 < 256
    → byte_at b 1 < 256
    → addr_is_private (inet6 b port) ≡ in_blocks6 b
unfolding addr_is_private
addr_is_private-in_blocks6 b port h0 h1 = inet6_is_private-in_blocks6 b h0 h1
