-- ===== src/Gen/Stats.antt =====
-- src/gen/minigen.cpp, structureSpanStats: how many structures of the standard region span chunks,
-- and how many cells two structures want. A hash set is a list without repetitions, a hash map an
-- association list; neither's order is looked at.
use voxel.Base.{
  ℕ, suc, ◌+◌, ◌*◌, ◌/◌, ◌%◌, ◌^◌, bit_xor, ◌≡◌, refl, inl, inr, Bool, false, not, ◌||◌, List, [],
  ◌∷◌, arith, leb, ◌==◌, if◌then◌else◌, Bool-cases, length,
}
use voxel.Base.Loops.{for_below}
use voxel.Gen.Chunk.{gen_edge}
use voxel.Gen.Hash.{is_anchor}
use voxel.Gen.Region.{off_world, world_extent_x, world_extent_y, world_extent_z}
use voxel.Gen.Structure.{Callback, for_each_structure_cell}

pub record SpanStats : Type 0 where
  pub cross_chunk_structures : ℕ
  pub same_cell_conflicts : ℕ

-- The sets that one structure fills.
pub record StatsCtx : Type 0 where
  pub structure_cells : List ℕ
  pub chunks_touched : List ℕ

unfoldable pub is_in : ℕ → List ℕ → Bool
is_in key [] = false
is_in key (k ∷ keys) = k == key || is_in key keys

abbrev pub insert : ℕ → List ℕ → List ℕ
insert key keys = if is_in key keys then keys else key ∷ keys

abbrev pub place_key : ℕ → ℕ → ℕ → ℕ
place_key x y z = bit_xor (bit_xor (x * 2 ^ 40 % 2 ^ 64) (y * 2 ^ 20 % 2 ^ 64)) z

-- The callback: the cells outside of the region are not counted.
unfoldable pub count_cell : Callback StatsCtx
count_cell x y z c ctx =
    if off_world x world_extent_x || (off_world y world_extent_y || off_world z world_extent_z)
    then ctx
    else record {
      structure_cells = insert (place_key x y z) ctx.structure_cells;
      chunks_touched =
          insert (place_key (x / gen_edge) (y / gen_edge) (z / gen_edge)) ctx.chunks_touched;
    }

-- `++ctx.cellWriters[key]`
unfoldable pub count_writer : ℕ → List (ℕ × ℕ) → List (ℕ × ℕ)
count_writer key [] = (key, 1) ∷ []
count_writer key ((k, writers) ∷ m) =
    let rest = count_writer key m in if k == key then (k, writers + 1) ∷ m else (k, writers) ∷ rest

unfoldable pub count_writers : List ℕ → List (ℕ × ℕ) → List (ℕ × ℕ)
count_writers [] m = m
count_writers (key ∷ keys) m = count_writers keys (count_writer key m)

-- What the loops over the columns carry.
pub record SpanCount : Type 0 where
  pub spanning : ℕ
  pub cell_writers : List (ℕ × ℕ)

unfoldable pub count_column : ℕ → ℕ → ℕ → SpanCount → SpanCount
count_column seed wz wx s =
    let ctx =
      for_each_structure_cell seed wx wz count_cell
        (record { structure_cells = []; chunks_touched = [] }) in
    if not (is_anchor seed wx wz) then s else record {
      spanning = if leb 2 (length ctx.chunks_touched) then s.spanning + 1 else s.spanning;
      cell_writers = count_writers ctx.structure_cells s.cell_writers;
    }

unfoldable pub conflicts : List (ℕ × ℕ) → ℕ
conflicts [] = 0
conflicts ((key, writers) ∷ m) = let rest = conflicts m in if leb 2 writers then suc rest else rest

unfoldable pub structure_span_stats : ℕ → SpanStats
structure_span_stats seed =
    let s =
      for_below world_extent_z (λ wz. for_below world_extent_x (count_column seed wz))
        (record { spanning = 0; cell_writers = [] }) in
    record { cross_chunk_structures = s.spanning; same_cell_conflicts = conflicts s.cell_writers }

unfoldable pub writers_of : ℕ → List (ℕ × ℕ) → ℕ
writers_of key [] = 0
writers_of key ((k, writers) ∷ m) = if k == key then writers else writers_of key m

writers_of-count_writer :
    (key other : ℕ) (m : List (ℕ × ℕ))
    → writers_of other (count_writer key m) ≡ writers_of other m + (if key == other then 1 else 0)
unfolding writers_of count_writer
writers_of-count_writer key other [] = elim (Bool-cases (key == other)) [
  | inl e ↦ rw e refl
  | inr e ↦ rw e refl
]
writers_of-count_writer key other ((k, writers) ∷ m) =
    let rest = writers_of-count_writer key other m in
    elim (Bool-cases (k == key)) [
      | inl e ↦
          let same : k ≡ key = ground arith in
          rw (e, same)
            (elim (Bool-cases (key == other)) [ inl f ↦ rw f refl | inr f ↦ rw f (omega arith) ])
      | inr e ↦ elim (Bool-cases (k == other)) [
        | inl f ↦
            let apart : (key == other) ≡ false = ground arith in rw (e, f, apart) (omega arith)
        | inr f ↦ rw (e, f) rest
      ]
    ]

-- How often a key stands in a list.
unfoldable pub occurrences : ℕ → List ℕ → ℕ
occurrences key [] = 0
occurrences key (k ∷ keys) = (if k == key then 1 else 0) + occurrences key keys

-- Counting the cells of one more structure raises the count of each of them by one for each time that
-- it stands among the cells.
pub writers_of-count_writers :
    (keys : List ℕ) (other : ℕ) (m : List (ℕ × ℕ))
    → writers_of other (count_writers keys m) ≡ writers_of other m + occurrences other keys
unfolding count_writers occurrences
writers_of-count_writers [] other m = omega arith
writers_of-count_writers (key ∷ keys) other m = omega (
  arith,
  writers_of-count_writers keys other (count_writer key m),
  writers_of-count_writer key other m,
)
