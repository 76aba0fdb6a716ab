-- ===== src/Registry/Slots.antt =====
-- EntitySlotAllocator of src/world/registry.hpp. The free list stands with its back first, so that
-- a push is a cons; a generation counts modulo 2 ^ 32.
pub mod Laws
pub mod Steps
pub mod Safety
pub mod Others
pub mod Lifetime
use voxel.Base.{
  ℕ, zero, suc, ◌+◌, ◌-◌, ◌*◌, ◌/◌, ◌%◌, ◌^◌, ◌≤◌, ◌<◌, bit_and, bit_or, bit_xor, ◌≡◌, refl, sym,
  ap, ◌∙◌, subst, ◌≢◌, ◌↔◌, ◌⊎◌, inl, inr, Bool, true, false, not, ◌&&◌, ◌||◌, Option, none, some,
  List, [], ◌∷◌, ◌++◌, map, append_assoc, append-nil, arith, dec_lt, dec_le, ℕ_discrete, ltb, leb,
  ◌==◌, if◌then◌else◌, ltb→lt, lt→ltb, ltb-false→le, ==_iff, ==_refl, Bool-cases, Option-cases,
  length, get_elem?, get_or, set, replicate, All, length-append, length-set, length-replicate,
  get_or-append_right, get_or-append_left, get_or-set_self, get_or-set_ne, get_or-replicate,
  eq_of_get_or, All-get_or, All-append, All-set, take, drop, take-append, drop-append, set-append,
  eq_tabulate, ◌>>=◌, ◌>>◌, reject, >>=-eq-some, reject->>, some_inj,
}
use voxel.Identity.{
  EntityHandle, invalid_handle, make_handle, handle_index, handle_generation, handle_valid,
}

pub record Slots : Type 0 where
  pub first_index : ℕ
  pub next_index : ℕ
  pub generation : List ℕ
  pub live : List Bool
  pub free : List ℕ

-- The constructor.
unfoldable pub new_slots : ℕ → Slots
new_slots first = record {
  first_index = first;
  next_index = first;
  generation = [];
  live = [];
  free = [];
}

-- `m_free.pop_back()` with `index` the back and `rest` what is left.
unfoldable pub reuse_slot : Slots → ℕ → List ℕ → Slots × EntityHandle
reuse_slot a index rest =
    let s = index - a.first_index in
    (
      record {
        first_index = a.first_index;
        next_index = a.next_index;
        generation = a.generation;
        live = set a.live s true;
        free = rest;
      },
      make_handle index (get_or a.generation s 0),
    )

unfoldable pub fresh_slot : Slots → Slots × EntityHandle
fresh_slot a = (
  record {
    first_index = a.first_index;
    next_index = a.next_index + 1;
    generation = a.generation ++ 0 ∷ [];
    live = a.live ++ true ∷ [];
    free = a.free;
  },
  make_handle a.next_index 0,
)

unfoldable pub allocate : Slots → Slots × EntityHandle
allocate a = elim a.free [
  | [] ↦ if a.next_index == 0xFFFFFFFF then (a, invalid_handle) else fresh_slot a
  | index ∷ rest ↦ reuse_slot a index rest
]

unfoldable pub live_slot : Slots → EntityHandle → Option ℕ
live_slot a h =
    if not (handle_valid h) || ltb (handle_index h) a.first_index
    then none
    else let s = handle_index h - a.first_index in
      if leb (length a.generation) s
        || not (get_or a.live s false)
        || not (get_or a.generation s 0 == handle_generation h)
      then none
      else some s

unfoldable pub is_live : Slots → EntityHandle → Bool
is_live a h = elim (live_slot a h) [ none ↦ false | some _ ↦ true ]

unfoldable pub free_slot : Slots → EntityHandle → ℕ → Slots
free_slot a h s = record {
  first_index = a.first_index;
  next_index = a.next_index;
  generation = set a.generation s ((get_or a.generation s 0 + 1) % 2 ^ 32);
  live = set a.live s false;
  free = handle_index h ∷ a.free;
}

unfoldable pub release : Slots → EntityHandle → Slots × Bool
release a h = elim (live_slot a h) [ none ↦ (a, false) | some s ↦ (free_slot a h s, true) ]
