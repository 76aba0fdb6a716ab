-- ===== src/Registry/Content/Examples.antt =====
-- A registry with two names, one of them put out of use: tests.
use voxel.Base.{ℕ, ◌≡◌, refl, false, some, List, [], ◌∷◌, arith}
use voxel.Base.Assoc.{find, contains, emplace, text_eq}
use voxel.Identity.{is_valid_content_name, find_char, ok_char, ok_chars, ok_part, valid_around}
use voxel.Registry.Content.{
  ContentRegistry, empty_registry, register_content, tombstone, id_of, name_of, is_active,
  serialize, deserialize, add_entry, activate, set_active, unknown_id,
}
use voxel.Registry.Content.Index.{Inv, empty_registry-Inv}
use voxel.Registry.Content.RoundTrip.{deserialize-serialize}
use voxel.Registry.Content.History.{Call, registers, buries, run, step, run-keeps, run-Inv}

-- "a:b" and "a:c"
abbrev stone : List ℕ
stone = 97 ∷ 58 ∷ 98 ∷ []

abbrev water : List ℕ
water = 97 ∷ 58 ∷ 99 ∷ []

abbrev history : List Call
history = registers stone ∷ registers water ∷ buries 1 ∷ []

abbrev two_names : ContentRegistry
two_names = run empty_registry history

two_names-Inv : Inv two_names
two_names-Inv = run-Inv empty_registry history empty_registry-Inv

stone_id : id_of two_names stone ≡ 1
unfolding run step register_content tombstone id_of add_entry activate set_active unknown_id find
    emplace contains text_eq is_valid_content_name find_char ok_char ok_chars ok_part valid_around
stone_id = refl

stone_buried : is_active two_names 1 ≡ false
unfolding run step register_content tombstone is_active add_entry activate set_active unknown_id
    find emplace contains text_eq is_valid_content_name find_char ok_char ok_chars ok_part
    valid_around
stone_buried = refl

stone_again : (register_content two_names stone).1 ≡ 1
unfolding run step register_content tombstone id_of add_entry activate set_active unknown_id find
    emplace contains text_eq is_valid_content_name find_char ok_char ok_chars ok_part valid_around
stone_again = refl

run-keeps_example :
    (id_of (run two_names history) stone ≡ 1) × (name_of (run two_names history) 1 ≡ stone)
run-keeps_example =
    run-keeps two_names history stone 1 two_names-Inv stone_id (λ e. absurd (omega arith))

deserialize_example : deserialize (serialize two_names) ≡ some two_names
deserialize_example = deserialize-serialize two_names two_names-Inv
