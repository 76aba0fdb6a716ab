-- ===== src/Registry/Content.antt =====
-- ContentRegistry of src/world/registry.hpp and its manifest. m_byName is the association list of
-- the names that are bound; a text is the list of its character codes.
pub mod Index
pub mod Manifest
pub mod RoundTrip
pub mod Permanence
pub mod History
mod Examples
use voxel.Base.{
  ℕ, zero, suc, ◌+◌, ◌-◌, ◌*◌, ◌/◌, ◌%◌, ◌^◌, ◌≤◌, ◌<◌, bit_and, bit_or, bit_xor, ◌≡◌, refl, sym,
  ap, ◌∙◌, subst, ◌≢◌, ◌↔◌, ◌⊎◌, inl, inr, Bool, true, false, not, ◌&&◌, ◌||◌, Option, none, some,
  List, [], ◌∷◌, ◌++◌, map, append_assoc, append-nil, arith, dec_lt, dec_le, ℕ_discrete, ltb, leb,
  ◌==◌, if◌then◌else◌, ltb→lt, lt→ltb, ltb-false→le, ==_iff, ==_refl, Bool-cases, Bool-agree,
  Option-cases, length, get_elem?, get_or, set, replicate, All, length-append, length-set,
  length-replicate, get_or-append_right, get_or-append_left, get_or-append_last, get_or-set_self,
  get_or-set_ne, get_or-replicate, eq_of_get_or, All-get_or, All-append, All-set, take, drop,
  take-append, drop-append, set-append, eq_tabulate, ◌>>=◌, ◌>>◌, reject, >>=-eq-some, reject->>,
  some_inj,
}
use voxel.Base.Assoc.{find, contains, emplace, text_eq}
use voxel.Bytes.{byte_at, put_u32, get_u32}
use voxel.Identity.{content_unknown, is_valid_content_name}

abbrev pub registry_magic : ℕ
registry_magic = 0x47525856

abbrev pub registry_version : ℕ
registry_version = 1

abbrev pub registry_max_entries : ℕ
registry_max_entries = 0xFFFFFFFE

pub record Entry : Type 0 where
  pub name : List ℕ
  pub active : Bool

pub record ContentRegistry : Type 0 where
  pub entries : List Entry
  pub by_name : List (List ℕ × ℕ)

abbrev pub empty_registry : ContentRegistry
empty_registry = record { entries = []; by_name = [] }

abbrev pub no_entry : Entry
no_entry = record { name = []; active = false }

-- `m_entries[at].active = active`
unfoldable pub set_active : List Entry → ℕ → Bool → List Entry
set_active [] at active = []
set_active (e ∷ es) zero active = record { name = e.name; active = active } ∷ es
set_active (e ∷ es) (suc at) active = e ∷ set_active es at active

-- `m_entries.push_back` and `m_byName.emplace`.
unfoldable pub add_entry : ContentRegistry → List ℕ → Bool → ContentRegistry
add_entry r name active = record {
  entries = r.entries ++ record { name = name; active = active } ∷ [];
  by_name = emplace text_eq name ((length r.entries + 1) % 2 ^ 32) r.by_name;
}

unfoldable pub activate : ContentRegistry → ℕ → Bool → ContentRegistry
activate r id active = record {
  entries = set_active r.entries (id - 1) active;
  by_name = r.by_name;
}

unfoldable pub register_content : ContentRegistry → List ℕ → ContentRegistry × ℕ
register_content r name =
    if not (is_valid_content_name name)
    then (r, content_unknown)
    else elim (find text_eq name r.by_name) [
      | some id ↦ (activate r id true, id)
      | none ↦
          if leb registry_max_entries (length r.entries)
          then (r, content_unknown)
          else (add_entry r name true, (length r.entries + 1) % 2 ^ 32)
    ]

-- An id that names no entry.
unfoldable pub unknown_id : ContentRegistry → ℕ → Bool
unknown_id r id = id == content_unknown || ltb (length r.entries) id

unfoldable pub tombstone : ContentRegistry → ℕ → ContentRegistry × Bool
tombstone r id = if unknown_id r id then (r, false) else (activate r id false, true)

unfoldable pub id_of : ContentRegistry → List ℕ → ℕ
id_of r name = elim (find text_eq name r.by_name) [ none ↦ content_unknown | some id ↦ id ]

unfoldable pub name_of : ContentRegistry → ℕ → List ℕ
name_of r id = if unknown_id r id then [] else (get_or r.entries (id - 1) no_entry).name

unfoldable pub is_active : ContentRegistry → ℕ → Bool
is_active r id = not (unknown_id r id) && (get_or r.entries (id - 1) no_entry).active

unfoldable pub put_entry : Entry → List ℕ
put_entry e =
    let len = length e.name % 2 ^ 16 in
    (if e.active then 1 else 0) ∷ bit_and len 0xFF ∷ len / 2 ^ 8 % 256 ∷ e.name

unfoldable pub put_entries : List Entry → List ℕ
put_entries [] = []
put_entries (e ∷ es) = put_entry e ++ put_entries es

unfoldable pub serialize : ContentRegistry → List ℕ
serialize r =
    put_u32 (put_u32 [] registry_magic ++ registry_version ∷ 0 ∷ 0 ∷ 0 ∷ [])
      (length r.entries % 2 ^ 32)
    ++ put_entries r.entries

-- The loop that fills `name`.
unfoldable pub read_name : ℕ → List ℕ → ℕ → List ℕ
read_name zero blob at = []
read_name (suc n) blob at = byte_at blob at ∷ read_name n blob (at + 1)

unfoldable pub name_length : List ℕ → ℕ → ℕ
name_length blob at = bit_or (byte_at blob (at + 1)) (byte_at blob (at + 2) * 2 ^ 8) % 2 ^ 16

-- One round of the loop over the entries, from the first byte of an entry on.
unfoldable pub read_entry : List ℕ → ℕ → ContentRegistry → Option (ContentRegistry × ℕ)
read_entry blob at r = do
  let len = name_length blob at
  let name = read_name len blob (at + 3)
  reject (ltb (length blob) (at + 3))
  reject (ltb 1 (byte_at blob at))
  reject (ltb (length blob) (at + 3 + len))
  reject (not (is_valid_content_name name))
  reject (contains text_eq name r.by_name)
  some (add_entry r name (byte_at blob at == 1), at + 3 + len)

unfoldable pub read_entries : ℕ → List ℕ → ℕ → ContentRegistry → Option (ContentRegistry × ℕ)
read_entries zero blob at r = some (r, at)
read_entries (suc n) blob at r = read_entry blob at r >>= λ next. read_entries n blob next.1 next.0

unfoldable pub deserialize : List ℕ → Option ContentRegistry
deserialize blob = do
  reject (
      ltb (length blob) 12
      || not (get_u32 blob 0 == registry_magic)
      || not (byte_at blob 4 == registry_version))
  reject (ltb registry_max_entries (get_u32 blob 8))
  last ← read_entries (get_u32 blob 8) blob 12 empty_registry
  reject (not (last.1 == length blob))
  some last.0
