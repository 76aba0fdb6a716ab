-- ===== src/Lod/Chain.antt =====
-- The chain of nodes that an edit of a chunk re-hashes: lodDirtyChain.
use voxel.Base.{
  ℕ, zero, suc, ◌+◌, ◌-◌, ◌≤◌, ◌<◌, ◌≡◌, refl, ap, ◌⊎◌, inl, inr, none, some, List, [], ◌∷◌, arith,
  Option-cases, length,
}
use voxel.Base.Int.{ℤ}
use voxel.Lod.{
  LodNodeKey, lod_top_level, lod_key_for_chunk, lod_parent, chain_from, lod_dirty_chain,
}

-- Each node is the parent of the one before, and the last has none.
abbrev pub Climbs : LodNodeKey → List LodNodeKey → Type 0
Climbs k [] = lod_parent k ≡ none
Climbs k (p ∷ ps) = (lod_parent k ≡ some p) × Climbs p ps

parent_cases :
    (k : LodNodeKey)
    → ((lod_parent k ≡ none) × (lod_top_level ≤ k.level))
      ⊎ ((p : LodNodeKey) × (lod_parent k ≡ some p)
          × (p.level ≡ k.level + 1)
          × (k.level < lod_top_level))
unfolding lod_parent
parent_cases k = elim (Option-cases (lod_parent k)) [
  | inl e ↦ inl (e, ground arith)
  | inr some_p ↦ let p = some_p.0 in let e = some_p.1 in inr (p, e, ground arith, ground arith)
]

chain_top : (n : ℕ) (k : LodNodeKey) → lod_parent k ≡ none → chain_from (suc n) k ≡ []
unfolding chain_from
chain_top n k e = rw (chain_from, e) refl

chain_up :
    (n : ℕ) (k p : LodNodeKey) → lod_parent k ≡ some p → chain_from (suc n) k ≡ p ∷ chain_from n p
unfolding chain_from
chain_up n k p e = rw (chain_from, e) refl

-- The rounds suffice, and there are as many nodes as levels above.
chain_from-Climbs :
    (n : ℕ) (k : LodNodeKey)
    → k.level ≤ lod_top_level
    → lod_top_level - k.level < n
    → Climbs k (chain_from n k) × (length (chain_from n k) ≡ lod_top_level - k.level)
chain_from-Climbs zero k h g = absurd (omega arith)
chain_from-Climbs (suc n) k h g = elim (parent_cases k) [
  | inl top ↦ rw (chain_top n k top.0) (top.0, omega (arith, top.1))
  | inr up ↦
      let rest =
        chain_from-Climbs n up.0 (omega (arith, up.2, up.3)) (omega (arith, up.2, up.3, g)) in
      rw (chain_up n k up.0 up.1) ((up.1, rest.0), omega (arith, rest.1, up.2, up.3))
]

-- An edit of a chunk re-hashes 29 nodes, one for each level: the chunk's own node, then the parent of
-- each node before, up to a root that has no parent.
pub lod_dirty_chain-Climbs :
    (cx cy cz : ℤ)
    → (length (lod_dirty_chain cx cy cz) ≡ lod_top_level + 1)
      × ((above : List LodNodeKey) × (lod_dirty_chain cx cy cz ≡ lod_key_for_chunk cx cy cz ∷ above)
          × Climbs (lod_key_for_chunk cx cy cz) above)
unfolding lod_dirty_chain lod_key_for_chunk
lod_dirty_chain-Climbs cx cy cz =
    let k = lod_key_for_chunk cx cy cz in
    let whole = chain_from-Climbs (lod_top_level + 1) k (omega arith) (omega arith) in
    (ap suc whole.1, (chain_from (lod_top_level + 1) k, refl, whole.0))
