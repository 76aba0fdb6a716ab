-- ===== src/Registry/Examples.antt =====
-- Concrete histories of an allocator and of a UUID index: tests.
use voxel.Base.{◌^◌, ◌≡◌, refl, ap, ◌≢◌, ◌↔◌, true, false, some, List, [], ◌∷◌, arith}
use voxel.Identity.{
  nil_uuid, EntityHandle, make_handle, handle_index, handle_generation, handle_valid,
}
use voxel.Registry.Slots.{
  Slots, new_slots, allocate, reuse_slot, fresh_slot, live_slot, is_live, free_slot, release,
}
use voxel.Registry.Slots.Laws.{Inv}
use voxel.Registry.Slots.Lifetime.{
  Call, allocates, releases, run, step, run-new_slots-Inv, release-ends,
}
use voxel.Registry.Bindings.{resolve, uuid_of}
use voxel.Registry.Bindings.Owners.{Action, binds, unbinds, index_after, Owns, resolve_iff}

abbrev first_handle : EntityHandle
first_handle = record { bits = 0 }

abbrev second_handle : EntityHandle
second_handle = record { bits = 1 }

-- The first slot with its second owner.
abbrev reborn_handle : EntityHandle
reborn_handle = record { bits = 2 ^ 32 }

abbrev history : List Call
history = allocates ∷ allocates ∷ releases first_handle ∷ []

abbrev used : Slots
used = run (new_slots 0) history

used_reuses : (allocate used).1 ≡ reborn_handle
unfolding run step new_slots allocate reuse_slot fresh_slot release live_slot free_slot make_handle
    handle_index handle_generation handle_valid
used_reuses = refl

used-Inv : Inv used
used-Inv = run-new_slots-Inv 0 history (omega arith)

used_lives : (is_live used first_handle ≡ false) × (is_live used second_handle ≡ true)
unfolding run step new_slots allocate reuse_slot fresh_slot release live_slot free_slot make_handle
    handle_index handle_generation handle_valid is_live
used_lives = (refl, refl)

used_valid : handle_valid (allocate used).1 ≡ true
unfolding handle_valid handle_index
used_valid = rw used_reuses refl

history_example : Inv (run (new_slots 0) history)
history_example = run-new_slots-Inv 0 history (omega arith)

second_ne : second_handle ≢ (allocate used).1
second_ne = rw used_reuses (λ e. absurd (omega (arith, ap (λ h. h.bits) e)))

release_example :
    ((release used second_handle).1 ≡ is_live used second_handle)
    × (is_live (release used second_handle).0 second_handle ≡ false)
release_example = release-ends used second_handle used-Inv

abbrev bindings : List Action
bindings = binds nil_uuid second_handle ∷ unbinds second_handle ∷ binds nil_uuid second_handle ∷ []

second_valid : handle_valid second_handle ≡ true
unfolding handle_valid handle_index
second_valid = refl

resolve_example :
    ((resolve (index_after bindings) nil_uuid used ≡ second_handle)
      ↔ (Owns bindings nil_uuid second_handle × (is_live used second_handle ≡ true)))
    × ((uuid_of (index_after bindings) second_handle used ≡ some nil_uuid)
        ↔ (Owns bindings nil_uuid second_handle × (is_live used second_handle ≡ true)))
resolve_example = resolve_iff bindings nil_uuid second_handle used second_valid
