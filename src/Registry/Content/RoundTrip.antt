-- ===== src/Registry/Content/RoundTrip.antt =====
-- The manifest of a registry, read back.
use voxel.Base.{
  ℕ, suc, ◌+◌, ◌%◌, ◌^◌, ◌<◌, ◌≡◌, refl, sym, subst, Bool, false, some, List, [], ◌∷◌, ◌++◌,
  append_assoc, append-nil, arith, ltb, ==_refl, length, length-append,
}
use voxel.Base.Assoc.{emplace, text_eq}
use voxel.Bytes.{byte_at, put_le, put_u32, get_u32, get_le}
use voxel.Bytes.Laws.{get_u32-put_le, length-put_le}
use voxel.Registry.Content.{
  Entry, ContentRegistry, empty_registry, registry_magic, registry_version, registry_max_entries,
  add_entry, put_entry, put_entries, serialize, read_entries, deserialize,
}
use voxel.Registry.Content.Index.{index, Fresh, Inv}
use voxel.Registry.Content.Manifest.{read_entry-put_entry, length-put_entry}

-- The registry after more entries.
with_entries : ContentRegistry → ℕ → List Entry → ContentRegistry
with_entries r k es = record { entries = r.entries ++ es; by_name = index r.by_name k es }

with_entries-nil : (r : ContentRegistry) (k : ℕ) → with_entries r k [] ≡ r
unfolding with_entries index
with_entries-nil r k = rw (append-nil r.entries) refl

with_entries-add_entry :
    (r : ContentRegistry) (k : ℕ) (e : Entry) (es : List Entry)
    → length r.entries ≡ k
    → with_entries (add_entry r e.name e.active) (suc k) es ≡ with_entries r k (e ∷ es)
unfolding with_entries index add_entry
with_entries-add_entry r k e es h = rw (h, append_assoc r.entries (e ∷ []) es) refl

length-add_entry :
    (r : ContentRegistry) (k : ℕ) (name : List ℕ) (b : Bool)
    → length r.entries ≡ k
    → length (add_entry r name b).entries ≡ suc k
unfolding add_entry
length-add_entry r k name b h =
    omega (arith, h, length-append r.entries (record { name = name; active = b } ∷ []))

Fresh-add_entry :
    (r : ContentRegistry) (k : ℕ) (e : Entry) (es : List Entry)
    → length r.entries ≡ k
    → Fresh r.by_name k (e ∷ es)
    → Fresh (add_entry r e.name e.active).by_name (suc k) es
unfolding add_entry
Fresh-add_entry r k e es h f =
    subst (λ t. Fresh (emplace text_eq e.name ((t + 1) % 2 ^ 32) r.by_name) (suc k) es) (sym h) f.1

read_entries-put_entries :
    (front : List ℕ) (es : List Entry) (r : ContentRegistry) (k : ℕ)
    → length r.entries ≡ k
    → Fresh r.by_name k es
    → read_entries (length es) (front ++ put_entries es) (length front) r
      ≡ some (with_entries r k es, length (front ++ put_entries es))
unfolding read_entries put_entries
read_entries-put_entries front [] r k h f = rw (with_entries-nil r k, append-nil front) refl
read_entries-put_entries front (e ∷ es) r k h f =
    let step = read_entry-put_entry front (put_entries es) e r f.0.0 f.0.1 in
    let size : length (front ++ put_entry e) ≡ length front + 3 + length e.name =
      omega (arith, length-append front (put_entry e), length-put_entry e) in
    let moved = append_assoc front (put_entry e) (put_entries es) in
    let next = add_entry r e.name e.active in
    let rest =
      read_entries-put_entries (front ++ put_entry e) es next (suc k)
        (length-add_entry r k e.name e.active h) (Fresh-add_entry r k e es h f) in
    rw (step, sym size, sym moved, rest, with_entries-add_entry r k e es h) refl

-- The twelve bytes in front of the entries.
preamble : ℕ → List ℕ
preamble count = 0x56 ∷ 0x58 ∷ 0x52 ∷ 0x47 ∷ 1 ∷ 0 ∷ 0 ∷ 0 ∷ put_le 4 0 count

length-preamble : (count : ℕ) → length (preamble count) ≡ 12
unfolding preamble
length-preamble count = omega (arith, length-put_le 4 0 count)

serialize-split :
    (r : ContentRegistry)
    → serialize r ≡ preamble (length r.entries % 2 ^ 32) ++ put_entries r.entries
unfolding serialize preamble put_u32 put_le
serialize-split r = refl

preamble-magic :
    (count : ℕ) (body : List ℕ)
    → (get_u32 (preamble count ++ body) 0 ≡ registry_magic)
      × (byte_at (preamble count ++ body) 4 ≡ registry_version)
unfolding preamble get_u32 get_le
preamble-magic count body = (refl, refl)

preamble-count :
    (count : ℕ) (body : List ℕ) → count < 2 ^ 32 → get_u32 (preamble count ++ body) 8 ≡ count
unfolding preamble
preamble-count count body h =
    get_u32-put_le count (0x56 ∷ 0x58 ∷ 0x52 ∷ 0x47 ∷ 1 ∷ 0 ∷ 0 ∷ 0 ∷ []) body 8 refl h

with_entries-Inv : (r : ContentRegistry) → Inv r → with_entries empty_registry 0 r.entries ≡ r
unfolding with_entries
with_entries-Inv r v = rw (sym v.indexed) refl

-- A manifest reads back as the registry that was written, with its ids, its tombstones and its map
-- of names.
pub deserialize-serialize : (r : ContentRegistry) → Inv r → deserialize (serialize r) ≡ some r
unfolding deserialize
deserialize-serialize r v =
    let count : length r.entries % 2 ^ 32 ≡ length r.entries = omega (arith, v.bounded) in
    let body = put_entries r.entries in
    let front = preamble (length r.entries) in
    let size : length (front ++ body) ≡ 12 + length body =
      omega (arith, length-append front body, length-preamble (length r.entries)) in
    let long : ltb (length (front ++ body)) 12 ≡ false = ground (arith, size) in
    let few : ltb registry_max_entries (length r.entries) ≡ false = ground (arith, v.bounded) in
    let magic = preamble-magic (length r.entries) body in
    let read : read_entries (length r.entries) (front ++ body) 12 empty_registry
        ≡ some (with_entries empty_registry 0 r.entries, length (front ++ body)) =
      subst
        (λ t.
          read_entries (length r.entries) (front ++ body) t empty_registry
          ≡ some (with_entries empty_registry 0 r.entries, length (front ++ body)))
        (length-preamble (length r.entries))
        (read_entries-put_entries front r.entries empty_registry 0 refl v.fresh) in
    let whole : with_entries empty_registry 0 r.entries ≡ r = with_entries-Inv r v in
    rw
      (
        serialize-split r,
        count,
        preamble-count (length r.entries) body (omega (arith, v.bounded)),
        long,
        magic.0,
        magic.1,
        few,
        read,
        ==_refl (length (front ++ body)),
        whole,
      )
      refl
