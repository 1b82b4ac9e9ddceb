-- ===== src/Headers/Trailers.antt =====
-- The trailer maps of src/proxy_wasm_headers.c: pw_trailer_get, pw_trailer_add, pw_trailer_remove and
-- pw_trailer_clear. A map is the list of its first `count` entries.
pub mod Laws
pub mod Lookup
pub mod Room
use vmod_wasm.Base.{
  ℕ, ◌+◌, Bool, true, false, ◌&&◌, List, [], ◌∷◌, ◌++◌, Option, none, some, leb, ◌==◌,
  if◌then◌else◌, length, Bytes,
}

pub record TrailerEntry : Type 0 where
  pub name : Bytes
  pub value : Bytes

abbrev pub Trailers : Type 0
Trailers = List TrailerEntry

abbrev pub max_trailers : ℕ
max_trailers = 32

abbrev pub lower : ℕ → ℕ
lower c = if leb b'A' c && leb c b'Z' then c + 32 else c

-- `strncasecmp(a, b, n) == 0` for two texts of `n` bytes: the comparison stops at a NUL.
unfoldable pub same_text : Bytes → Bytes → Bool
same_text [] b = true
same_text (x ∷ a) [] = true
same_text (x ∷ a) (y ∷ b) =
    let rest = same_text a b in
    if lower x == lower y then (if x == 0 then true else rest) else false

abbrev pub has_name : Bytes → TrailerEntry → Bool
has_name name e = length e.name == length name && same_text e.name name

pub trailer_get : Trailers → Bytes → Option Bytes
trailer_get [] name = none
trailer_get (e ∷ es) name = if has_name name e then some e.value else trailer_get es name

-- `alloc_ok` stands for both allocations; `none` is -1.
pub trailer_add : Bool → Trailers → Bytes → Bytes → Option Trailers
trailer_add alloc_ok tm name value =
    if leb max_trailers (length tm)
    then none
    else if alloc_ok
    then some (tm ++ record { name = name; value = value } ∷ [])
    else none

abbrev pub last_of : TrailerEntry → Trailers → TrailerEntry
last_of e [] = e
last_of e (f ∷ es) = last_of f es

abbrev pub init_of : TrailerEntry → Trailers → Trailers
init_of e [] = []
init_of e (f ∷ es) = e ∷ init_of f es

-- What stands at the place of a removed entry and behind it, for the entries `es` that were behind it:
-- the last of them is moved to its place.
abbrev pub fill_gap : Trailers → Trailers
fill_gap [] = []
fill_gap (e ∷ es) = last_of e es ∷ init_of e es

unfoldable pub trailer_remove : Trailers → Bytes → Trailers
trailer_remove [] name = []
trailer_remove (e ∷ es) name = if has_name name e then fill_gap es else e ∷ trailer_remove es name

abbrev pub trailer_clear : Trailers → Trailers
trailer_clear tm = []

-- The trailer branch of proxy_replace_header_map_value, which drops the answer of the add.
pub trailer_replace : Bool → Trailers → Bytes → Bytes → Trailers
trailer_replace alloc_ok tm name value =
    let removed = trailer_remove tm name in
    elim (trailer_add alloc_ok removed name value) [ none ↦ removed | some added ↦ added ]
