-- ===== src/Store/Examples.antt =====
-- A store with two chunks and one piece of metadata: tests.
use voxel.Base.{◌≡◌, refl, ◌↔◌, Bool, true, false, none, some, List, [], ◌∷◌, if◌then◌else◌, All}
use voxel.Bytes.Order.{bytes_less}
use voxel.Store.{
  chunks, meta, Bytes, MemoryStore, empty_store, space_index, space_of, with_space, assign, put,
  get, BatchOp, has_empty_key, write, apply_op, apply_ops, apply_batch, lower_bound, has_prefix,
  visit_from, scan_prefix,
}
use voxel.Store.Sorted.{Ascends}
use voxel.Store.Laws.{Inv, HasKey, empty_store-Inv, after_ops, get-apply_batch, apply_batch-Inv}
use voxel.Store.Scan.{matching, visit_all, scan_prefix-matching}

abbrev ops : List BatchOp
ops =
    record { space = chunks; key = 2 ∷ 9 ∷ []; value = some (7 ∷ []) }
    ∷ record { space = chunks; key = 1 ∷ []; value = some (8 ∷ []) }
    ∷ record { space = meta; key = 1 ∷ []; value = some [] }
    ∷ []

abbrev filled : MemoryStore
filled = (apply_batch empty_store ops).0

filled-Inv : Inv filled
filled-Inv = apply_batch-Inv empty_store ops empty_store-Inv

-- A visitor that collects keys.
collect : List Bytes → Bytes → Bytes → List Bytes × Bool
collect seen k v = (k ∷ seen, true)

filled_order : scan_prefix collect filled chunks [] [] ≡ (2 ∷ 9 ∷ []) ∷ (1 ∷ []) ∷ []
unfolding collect scan_prefix visit_from has_prefix lower_bound space_of with_space space_index
    apply_batch apply_ops apply_op write assign bytes_less has_empty_key
filled_order = refl

-- The second write has an empty key.
abbrev nameless_ops : List BatchOp
nameless_ops =
    record { space = chunks; key = 1 ∷ []; value = none }
    ∷ record { space = meta; key = []; value = some (7 ∷ []) }
    ∷ []

nameless_refused : apply_batch filled nameless_ops ≡ (filled, false)
unfolding apply_batch has_empty_key
nameless_refused = refl

apply_batch_example :
    (((apply_batch filled nameless_ops).1 ≡ true) ↔ All HasKey nameless_ops)
    × (get (apply_batch filled nameless_ops).0 chunks (1 ∷ []) ≡ (
        if (apply_batch filled nameless_ops).1
        then after_ops chunks (1 ∷ []) nameless_ops (get filled chunks (1 ∷ []))
        else get filled chunks (1 ∷ [])))
apply_batch_example = get-apply_batch filled nameless_ops chunks (1 ∷ []) filled-Inv

put_accepted : (put filled meta (1 ∷ []) (5 ∷ [])).1 ≡ true
unfolding put
put_accepted = refl

scan_example :
    (scan_prefix collect filled chunks (2 ∷ []) []
      ≡ visit_all collect [] (matching (2 ∷ []) (space_of filled chunks)))
    × Ascends (space_of filled chunks)
scan_example = scan_prefix-matching collect filled chunks (2 ∷ []) [] filled-Inv
