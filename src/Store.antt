-- ===== src/Store.antt =====
-- The key-value store: the interface of src/store/store.hpp as its in-memory backend
-- src/store/memory_store.hpp implements it. A std::map over byte vectors is a list of entries in the
-- ascending order of its keys (bytes_less); a visitor is a function that updates a state of its own
-- and says whether to go on.
pub mod Sorted
pub mod Lookup
pub mod Laws
pub mod Scan
mod Examples
use voxel.Base.{
  ℕ, zero, suc, ◌+◌, ◌-◌, ◌*◌, ◌/◌, ◌%◌, ◌^◌, ◌≤◌, ◌<◌, bit_and, bit_or, bit_xor, ◌≡◌, refl, sym,
  ap, ◌∙◌, subst, ◌≢◌, ◌↔◌, ◌⊎◌, inl, inr, Bool, true, false, not, ◌&&◌, ◌||◌, Option, none, some,
  List, [], ◌∷◌, ◌++◌, map, append_assoc, append-nil, arith, dec_lt, dec_le, ℕ_discrete, ltb, leb,
  ◌==◌, if◌then◌else◌, ltb→lt, lt→ltb, ltb-false→le, ==_iff, ==_refl, Bool-cases, Bool-agree,
  Option-cases, length, get_elem?, get_or, set, replicate, All, length-append, length-set,
  length-replicate, get_or-append_right, get_or-append_left, get_or-append_last, get_or-set_self,
  get_or-set_ne, get_or-replicate, eq_of_get_or, All-get_or, All-append, All-set, take, drop,
  take-append, drop-append, set-append, eq_tabulate, ◌>>=◌, ◌>>◌, reject, >>=-eq-some, reject->>,
  some_inj,
}
use voxel.Bytes.Order.{bytes_less}

pub data StoreSpace : Type 0 where
  chunks : StoreSpace
  lod_nodes : StoreSpace
  registry : StoreSpace
  meta : StoreSpace

-- `index`
unfoldable pub space_index : StoreSpace → ℕ
space_index chunks = 0
space_index lod_nodes = 1
space_index registry = 2
space_index meta = 3

abbrev pub Bytes : Type 0
Bytes = List ℕ

-- One std::map.
abbrev pub Space : Type 0
Space = List (Bytes × Bytes)

pub record MemoryStore : Type 0 where
  pub spaces : List Space

abbrev pub empty_store : MemoryStore
empty_store = record { spaces = replicate 4 [] }

-- The map of a space.
unfoldable pub space_of : MemoryStore → StoreSpace → Space
space_of store s = get_or store.spaces (space_index s) []

unfoldable pub with_space : MemoryStore → StoreSpace → Space → MemoryStore
with_space store s m = record { spaces = set store.spaces (space_index s) m }

-- `m[key] = value`
unfoldable pub assign : Space → Bytes → Bytes → Space
assign [] key value = (key, value) ∷ []
assign ((k, v) ∷ m) key value =
    if bytes_less k key
    then (k, v) ∷ assign m key value
    else if bytes_less key k
    then (key, value) ∷ (k, v) ∷ m
    else (k, value) ∷ m

-- `m.find(key)`, the value that it points to.
unfoldable pub lookup : Space → Bytes → Option Bytes
lookup [] key = none
lookup ((k, v) ∷ m) key =
    if bytes_less k key then lookup m key else if bytes_less key k then none else some v

-- `m.erase(key)`
unfoldable pub remove : Space → Bytes → Space
remove [] key = []
remove ((k, v) ∷ m) key =
    if bytes_less k key then (k, v) ∷ remove m key else if bytes_less key k then (k, v) ∷ m else m

unfoldable pub is_present : Option Bytes → Bool
is_present none = false
is_present (some v) = true

unfoldable pub put : MemoryStore → StoreSpace → Bytes → Bytes → MemoryStore × Bool
put store s [] value = (store, false)
put store s (b ∷ key) value = (with_space store s (assign (space_of store s) (b ∷ key) value), true)

unfoldable pub get : MemoryStore → StoreSpace → Bytes → Option Bytes
get store s key = lookup (space_of store s) key

unfoldable pub erase : MemoryStore → StoreSpace → Bytes → MemoryStore × Bool
erase store s key =
    (with_space store s (remove (space_of store s) key), is_present (get store s key))

pub record BatchOp : Type 0 where
  pub space : StoreSpace
  pub key : Bytes
  pub value : Option Bytes

-- The first loop: an empty key anywhere.
unfoldable pub has_empty_key : List BatchOp → Bool
has_empty_key [] = false
has_empty_key (op ∷ ops) = if length op.key == 0 then true else has_empty_key ops

unfoldable pub write : Space → Bytes → Option Bytes → Space
write m key none = remove m key
write m key (some v) = assign m key v

unfoldable pub apply_op : MemoryStore → BatchOp → MemoryStore
apply_op store op = with_space store op.space (write (space_of store op.space) op.key op.value)

-- The second loop.
unfoldable pub apply_ops : MemoryStore → List BatchOp → MemoryStore
apply_ops store [] = store
apply_ops store (op ∷ ops) = apply_ops (apply_op store op) ops

unfoldable pub apply_batch : MemoryStore → List BatchOp → MemoryStore × Bool
apply_batch store ops = if has_empty_key ops then (store, false) else (apply_ops store ops, true)

-- `map.lower_bound(prefix)`: the entries from the first key on that is not less.
unfoldable pub lower_bound : Space → Bytes → Space
lower_bound [] p = []
lower_bound ((k, v) ∷ m) p = if bytes_less k p then lower_bound m p else (k, v) ∷ m

-- The size test and memcmp.
unfoldable pub has_prefix : Bytes → Bytes → Bool
has_prefix [] k = true
has_prefix (x ∷ p) [] = false
has_prefix (x ∷ p) (y ∷ k) = if x == y then has_prefix p k else false

module _ {S : Type 0} (visit : S → Bytes → Bytes → S × Bool) where
  -- The loop of scanPrefix, from an iterator on.
  unfoldable pub visit_from : Bytes → S → Space → S
  visit_from p s [] = s
  visit_from p s ((k, v) ∷ m) =
      let next = visit s k v in
      let rest = visit_from p next.0 m in
      if not (has_prefix p k) then s else if not next.1 then next.0 else rest

  unfoldable pub scan_prefix : MemoryStore → StoreSpace → Bytes → S → S
  scan_prefix store space p s = visit_from p s (lower_bound (space_of store space) p)
