-- ===== src/Store/Laws.antt =====
-- The promise of a key-value store: puts, erases and batches act on a table of places, a place
-- being a space and a key.
use voxel.Base.{
  ◌<◌, ◌≡◌, refl, sym, ap, ◌∙◌, subst, ◌≢◌, ◌↔◌, inl, inr, Bool, true, false, ◌&&◌, Option, none,
  some, List, [], ◌∷◌, arith, ◌==◌, if◌then◌else◌, ==_iff, Bool-cases, length, get_or, All,
  length-set, get_or-set_self, get_or-set_ne, All-get_or, All-set,
}
use voxel.Base.Assoc.{text_eq, text_eq-Decides}
use voxel.Store.{
  StoreSpace, chunks, lod_nodes, registry, meta, Bytes, Space, MemoryStore, empty_store,
  space_index, space_of, with_space, lookup, is_present, put, get, erase, BatchOp, has_empty_key,
  write, apply_op, apply_ops, apply_batch,
}
use voxel.Store.Sorted.{Ascends, Ascends-assign, Ascends-remove}
use voxel.Store.Lookup.{lookup-assign_self, lookup-assign_ne, lookup-remove_self, lookup-remove_ne}

-- Four spaces with ascending keys.
pub record Inv (store : MemoryStore) : Type 0 where
  pub four : length store.spaces ≡ 4
  pub ascends : All Ascends store.spaces

pub empty_store-Inv : Inv empty_store
empty_store-Inv = record { four = refl; ascends = (tt, (tt, (tt, (tt, tt)))) }

space_index-lt : (s : StoreSpace) → space_index s < 4
unfolding space_index
space_index-lt chunks = omega arith
space_index-lt lod_nodes = omega arith
space_index-lt registry = omega arith
space_index-lt meta = omega arith

-- The same space, and the same key.
unfoldable pub same_place : StoreSpace → Bytes → StoreSpace → Bytes → Bool
same_place s key t j = (space_index s == space_index t) && text_eq key j

pub space_of-Ascends :
    (store : MemoryStore) (s : StoreSpace) → Inv store → Ascends (space_of store s)
unfolding space_of
space_of-Ascends store s v =
    All-get_or Ascends store.spaces (space_index s) [] v.ascends
      (omega (arith, v.four, space_index-lt s))

with_space-Inv :
    (store : MemoryStore) (s : StoreSpace) (m : Space)
    → Inv store
    → Ascends m
    → Inv (with_space store s m)
unfolding with_space
with_space-Inv store s m v a = record {
  four = length-set store.spaces (space_index s) m ∙ v.four;
  ascends = All-set Ascends store.spaces (space_index s) m v.ascends a;
}

space_of-with_space :
    (store : MemoryStore) (s t : StoreSpace) (m : Space)
    → Inv store
    → space_of (with_space store s m) t
      ≡ (if space_index s == space_index t then m else space_of store t)
unfolding space_of with_space
space_of-with_space store s t m v =
    let here : space_index s < length store.spaces = omega (arith, v.four, space_index-lt s) in
    elim (Bool-cases (space_index s == space_index t)) [
      | inl y ↦
          rw (y, sym ((==_iff (space_index s) (space_index t)).0 y))
            (get_or-set_self store.spaces (space_index s) m [] here)
      | inr n ↦
          rw n (get_or-set_ne store.spaces (space_index s) (space_index t) m [] (ground arith))
    ]

write-Ascends : (m : Space) (key : Bytes) (o : Option Bytes) → Ascends m → Ascends (write m key o)
unfolding write
write-Ascends m key none a = Ascends-remove m key a
write-Ascends m key (some v) a = Ascends-assign m key v a

lookup-write_self :
    (m : Space) (key : Bytes) (o : Option Bytes) → Ascends m → lookup (write m key o) key ≡ o
unfolding write
lookup-write_self m key none a = lookup-remove_self m key a
lookup-write_self m key (some v) a = lookup-assign_self m key v

lookup-write_ne :
    (m : Space) (key j : Bytes) (o : Option Bytes)
    → Ascends m
    → key ≢ j
    → lookup (write m key o) j ≡ lookup m j
unfolding write
lookup-write_ne m key j none a ne = lookup-remove_ne m key j a ne
lookup-write_ne m key j (some v) a ne = lookup-assign_ne m key v j ne

lookup-write :
    (m : Space) (key j : Bytes) (o : Option Bytes)
    → Ascends m
    → lookup (write m key o) j ≡ (if text_eq key j then o else lookup m j)
lookup-write m key j o a = elim (Bool-cases (text_eq key j)) [
  | inl y ↦ rw y (
      subst (λ t. lookup (write m key o) t ≡ o) ((text_eq-Decides key j).0 y)
        (lookup-write_self m key o a))
  | inr n ↦ rw n (lookup-write_ne m key j o a (λ e. clash ((text_eq-Decides key j).1 e) n))
]
  where
    clash : {b : Bool} → b ≡ true → b ≡ false → ⊥
    clash t f = cc

-- One write at a place.
get-write :
    (store : MemoryStore) (s t : StoreSpace) (key j : Bytes) (o : Option Bytes)
    → Inv store
    → get (with_space store s (write (space_of store s) key o)) t j
      ≡ (if same_place s key t j then o else get store t j)
unfolding get same_place space_of
get-write store s t key j o v =
    let placed = space_of-with_space store s t (write (space_of store s) key o) v in
    let found = lookup-write (space_of store s) key j o (space_of-Ascends store s v) in
    elim (Bool-cases (space_index s == space_index t)) [
      | inl y ↦
          let one : space_of store s ≡ space_of store t =
            same_space store s t ((==_iff (space_index s) (space_index t)).0 y) in
          rw (placed, y) (found ∙ ap (λ m. if text_eq key j then o else lookup m j) one)
      | inr n ↦ rw (placed, n) refl
    ]
  where
    same_space :
        (st : MemoryStore) (a b : StoreSpace)
        → space_index a ≡ space_index b
        → space_of st a ≡ space_of st b
    same_space st a b e = ap (λ i. get_or st.spaces i []) e

apply_op-Inv : (store : MemoryStore) (op : BatchOp) → Inv store → Inv (apply_op store op)
unfolding apply_op
apply_op-Inv store op v =
    with_space-Inv store op.space (write (space_of store op.space) op.key op.value) v
      (write-Ascends (space_of store op.space) op.key op.value (space_of-Ascends store op.space v))

apply_ops-Inv : (store : MemoryStore) (ops : List BatchOp) → Inv store → Inv (apply_ops store ops)
unfolding apply_ops
apply_ops-Inv store [] v = v
apply_ops-Inv store (op ∷ ops) v = apply_ops-Inv (apply_op store op) ops (apply_op-Inv store op v)

-- What a list of writes leaves at a place that held `o`.
unfoldable pub after_ops : StoreSpace → Bytes → List BatchOp → Option Bytes → Option Bytes
after_ops t j [] o = o
after_ops t j (op ∷ ops) o =
    after_ops t j ops (if same_place op.space op.key t j then op.value else o)

get-apply_ops :
    (store : MemoryStore) (ops : List BatchOp) (t : StoreSpace) (j : Bytes)
    → Inv store
    → get (apply_ops store ops) t j ≡ after_ops t j ops (get store t j)
unfolding apply_ops after_ops apply_op
get-apply_ops store [] t j v = refl
get-apply_ops store (op ∷ ops) t j v =
    get-apply_ops (apply_op store op) ops t j (apply_op-Inv store op v)
    ∙ ap (after_ops t j ops) (get-write store op.space t op.key j op.value v)

-- A write whose key is not empty.
abbrev pub HasKey : BatchOp → Type 0
HasKey op = op.key ≢ []

has_empty_key-none : (ops : List BatchOp) → has_empty_key ops ≡ false → All HasKey ops
unfolding has_empty_key
has_empty_key-none [] h = tt
has_empty_key-none (op ∷ ops) h = elim (Bool-cases (length op.key == 0)) [
  | inl y ↦ let stop : true ≡ false = rw y at h in absurd cc
  | inr n ↦ (λ e. named op.key n e, has_empty_key-none ops (rw n at h))
]
  where
    named : (key : Bytes) → (length key == 0) ≡ false → key ≡ [] → ⊥
    named [] n e = cc
    named (b ∷ key) n e = cc

has_empty_key-some : (ops : List BatchOp) → has_empty_key ops ≡ true → All HasKey ops → ⊥
unfolding has_empty_key
has_empty_key-some [] h all = let stop : false ≡ true = h in cc
has_empty_key-some (op ∷ ops) h (named, all) = elim (Bool-cases (length op.key == 0)) [
  | inl y ↦ named (empty op.key y)
  | inr n ↦ has_empty_key-some ops (rw n at h) all
]
  where
    empty : (key : Bytes) → (length key == 0) ≡ true → key ≡ []
    empty [] y = refl
    empty (b ∷ key) y = absurd (ground arith)

-- A batch is all or nothing: it is accepted exactly when no write of it has an empty key; then every
-- place holds what the writes, in their order, leave there. After a refused one every place holds what
-- it held before.
pub get-apply_batch :
    (store : MemoryStore) (ops : List BatchOp) (t : StoreSpace) (j : Bytes)
    → Inv store
    → (((apply_batch store ops).1 ≡ true) ↔ All HasKey ops)
      × (get (apply_batch store ops).0 t j ≡ (
          if (apply_batch store ops).1 then after_ops t j ops (get store t j) else get store t j))
unfolding apply_batch
get-apply_batch store ops t j v = elim (Bool-cases (has_empty_key ops)) [
  | inl y ↦
      rw (apply_batch, y) ((λ h. absurd cc, λ all. absurd (has_empty_key-some ops y all)), refl)
  | inr n ↦
      rw (apply_batch, n)
        ((λ h. has_empty_key-none ops n, λ all. refl), get-apply_ops store ops t j v)
]

-- A batch keeps the keys of every space ascending.
pub apply_batch-Inv :
    (store : MemoryStore) (ops : List BatchOp) → Inv store → Inv (apply_batch store ops).0
unfolding apply_batch
apply_batch-Inv store ops v = elim (Bool-cases (has_empty_key ops)) [
  | inl y ↦ rw (apply_batch, y) v
  | inr n ↦ rw (apply_batch, n) (apply_ops-Inv store ops v)
]

pub put-Inv :
    (store : MemoryStore) (s : StoreSpace) (key value : Bytes)
    → Inv store
    → Inv (put store s key value).0
unfolding put write
put-Inv store s [] value v = v
put-Inv store s (b ∷ key) value v =
    with_space-Inv store s (write (space_of store s) (b ∷ key) (some value)) v
      (write-Ascends (space_of store s) (b ∷ key) (some value) (space_of-Ascends store s v))

-- A put that is accepted, which is when its key is not empty, sets one place and no other.
pub get-put :
    (store : MemoryStore) (s t : StoreSpace) (key value j : Bytes)
    → Inv store
    → (put store s key value).1 ≡ true
    → get (put store s key value).0 t j
      ≡ (if same_place s key t j then some value else get store t j)
unfolding put write
get-put store s t [] value j v ok = absurd cc
get-put store s t (b ∷ key) value j v ok = get-write store s t (b ∷ key) j (some value) v

-- An erase clears one place and no other, and tells whether it held a value.
pub get-erase :
    (store : MemoryStore) (s t : StoreSpace) (key j : Bytes)
    → Inv store
    → ((erase store s key).1 ≡ is_present (get store s key))
      × (get (erase store s key).0 t j ≡ (if same_place s key t j then none else get store t j))
unfolding erase write
get-erase store s t key j v = (refl, get-write store s t key j none v)
