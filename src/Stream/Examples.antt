-- ===== src/Stream/Examples.antt =====
-- The streamer over a load that counts its calls, and over the belt, with a window of one chunk.
use voxel.Base.{◌≡◌, refl, Bool, true, false, List, [], ◌∷◌, arith}
use voxel.Base.Assoc.{find, contains, emplace}
use voxel.Blob.{CellValue}
use voxel.Store.{MemoryStore, empty_store}
use voxel.Store.Laws.{empty_store-Inv}
use voxel.Stream.{
  ChunkKey, StreamConfig, Streamer, set_center, desired, desired_slices, desired_rows, desired_row,
  in_window, window_mask, mask_from, neighbor_keys, chebyshev, sort_keys, insert_key, nearer,
  missing, evict,
}
use voxel.Stream.Invariant.{LoadLaws, AllTrue, pump-IsTrue}
use voxel.Stream.OnBelt.{belt_load, IsAfter, world_of, belt_load-LoadLaws}
use voxel.Stream.Pump.{
  pump, quiescent, all_settled, is_settled, build_all, build_one, needs_mesh, admit, admit_one,
  neighbors_resident, all_resident,
}
use voxel.Stream.Quiet.{IsMap, pump-quiescent}
use voxel.Stream.Same.{
  Move, moves_to, pumps, walk, step, with_budget, new_streamer, Agree, quiescent-Agree,
}
use voxel.Stream.Window.{is_listed, is_listed-desired, InDomain, IsSane}

abbrev nothing_opaque : CellValue → Bool
nothing_opaque c = false

abbrev one_chunk : StreamConfig
one_chunk = record { radius = 0; cy_min = 0; cy_max = 0; budget = 3 }

abbrev straight : List Move
straight = moves_to 5 7 ∷ pumps 1 ∷ []

abbrev detour : List Move
detour = pumps 1 ∷ moves_to 5 7 ∷ pumps 0 ∷ pumps 2 ∷ []

abbrev there : ChunkKey
there = record { cx = 5; cy = 0; cz = 7 }

abbrev run : List Move → Streamer MemoryStore
run moves = walk (belt_load 5) one_chunk nothing_opaque (new_streamer empty_store) moves

straight-quiescent : quiescent one_chunk (run straight) ≡ true
unfolding quiescent all_settled is_settled desired desired_slices desired_rows desired_row walk step
    pump set_center find contains emplace build_all admit admit_one with_budget sort_keys insert_key
    nearer chebyshev missing evict in_window window_mask mask_from neighbor_keys needs_mesh
    neighbors_resident all_resident build_one new_streamer belt_load
straight-quiescent = refl

detour-quiescent : quiescent one_chunk (run detour) ≡ true
unfolding quiescent all_settled is_settled desired desired_slices desired_rows desired_row walk step
    pump set_center find contains emplace build_all admit admit_one with_budget sort_keys insert_key
    nearer chebyshev missing evict in_window window_mask mask_from neighbor_keys needs_mesh
    neighbors_resident all_resident build_one new_streamer belt_load
detour-quiescent = refl

origin : InDomain 0
origin = (omega arith, omega arith, omega arith)

there_IsSane : IsSane one_chunk 5 7
there_IsSane = record {
  center_x = (omega arith, omega arith, omega arith);
  center_z = (omega arith, omega arith, omega arith);
  low = origin;
  high = origin;
  radius = omega arith;
}

straight-IsSane : IsSane one_chunk (run straight).center_x (run straight).center_z
unfolding walk step pump set_center new_streamer
straight-IsSane = there_IsSane

centers :
    ((run straight).center_x ≡ (run detour).center_x)
    × ((run straight).center_z ≡ (run detour).center_z)
unfolding walk step pump set_center new_streamer
centers = (refl, refl)

there_inside : in_window one_chunk (run straight).center_x (run straight).center_z there ≡ true
unfolding walk step pump set_center new_streamer in_window chebyshev
there_inside = refl

empty_store-IsAfter : IsAfter 5 empty_store empty_store
empty_store-IsAfter = (empty_store-Inv, λ k. refl)

quiescent-Agree_example : Agree (run straight).residents (run detour).residents there
quiescent-Agree_example =
    quiescent-Agree (belt_load 5) (belt_load 5) (IsAfter 5 empty_store) (IsAfter 5 empty_store)
      (world_of 5 empty_store) one_chunk nothing_opaque empty_store empty_store straight detour
      there (belt_load-LoadLaws 5 empty_store) (belt_load-LoadLaws 5 empty_store)
      empty_store-IsAfter empty_store-IsAfter centers.0 centers.1 straight-quiescent
      detour-quiescent straight-IsSane there_IsSane.center_x origin there_IsSane.center_z
      there_inside

pump-IsTrue_example :
    IsAfter 5 empty_store
      (pump (belt_load 5) one_chunk nothing_opaque (new_streamer empty_store)).0.store
    × AllTrue
        (world_of 5 empty_store)
        nothing_opaque
        (pump (belt_load 5) one_chunk nothing_opaque (new_streamer empty_store)).0.residents
unfolding new_streamer
pump-IsTrue_example =
    pump-IsTrue (world_of 5 empty_store) nothing_opaque (belt_load 5) (IsAfter 5 empty_store)
      (belt_load-LoadLaws 5 empty_store) one_chunk (new_streamer empty_store)
      (empty_store-IsAfter, tt)

belt_load-LoadLaws_example : LoadLaws (belt_load 5) (IsAfter 5 empty_store) (world_of 5 empty_store)
belt_load-LoadLaws_example = belt_load-LoadLaws 5 empty_store

is_listed-desired_example : is_listed there (desired one_chunk 5 7) ≡ in_window one_chunk 5 7 there
is_listed-desired_example =
    is_listed-desired one_chunk 5 7 there there_IsSane there_IsSane.center_x origin
      there_IsSane.center_z

straight-IsMap : IsMap (run straight).residents
unfolding quiescent all_settled is_settled desired desired_slices desired_rows desired_row walk step
    pump set_center find contains emplace build_all admit admit_one with_budget sort_keys insert_key
    nearer chebyshev missing evict in_window window_mask mask_from neighbor_keys needs_mesh
    neighbors_resident all_resident build_one new_streamer belt_load
straight-IsMap = ((refl, (there_IsSane.center_x.0, origin.0, there_IsSane.center_z.0)), tt)

pump-quiescent_example :
    pump (belt_load 5) one_chunk nothing_opaque (run straight)
    ≡ (run straight, record { loaded = 0; loaded_from_store = 0; meshed = 0; evicted = 0 })
pump-quiescent_example =
    pump-quiescent (belt_load 5) one_chunk nothing_opaque (run straight) straight-IsSane
      straight-IsMap straight-quiescent
