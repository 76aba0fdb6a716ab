-- ===== src/Stream/Count.antt =====
-- As many residents as there are wanted keys, which all are resident, are no others: why `quiescent`
-- compares the two numbers.
use voxel.Base.{
  ℕ, suc, ◌≤◌, ◌≡◌, refl, ap, ◌∙◌, ◌⊎◌, inl, inr, Bool, true, false, ◌||◌, some, List, [], ◌∷◌,
  arith, if◌then◌else◌, Bool-cases, length, All,
}
use voxel.Base.Assoc.{find}
use voxel.Stream.{ChunkKey, key_eq, StreamConfig, ResidentChunk, Residents, resident}
use voxel.Stream.Distinct.{Distinct}
use voxel.Stream.Invariant.{key_eq→eq, key_eq_refl, and_right}
use voxel.Stream.Pump.{is_settled, all_settled}
use voxel.Stream.Same.{and_left, is_settled-IsSettled}
use voxel.Stream.Window.{is_listed}

key_eq_sym : (a b : ChunkKey) → key_eq a b ≡ key_eq b a
key_eq_sym a b = ground arith

or_cases : (p q : Bool) → (p || q) ≡ true → (p ≡ true) ⊎ (q ≡ true)
or_cases true q h = inl refl
or_cases false q h = inr h

or_right : (p q : Bool) → q ≡ true → (p || q) ≡ true
or_right true q h = refl
or_right false q h = h

or_neither : (p q : Bool) → (p || q) ≡ false → (p ≡ false) × (q ≡ false)
or_neither true q h = absurd cc
or_neither false q h = (refl, h)

-- The list without the first entry that is the key.
unfoldable drop_key : ChunkKey → List ChunkKey → List ChunkKey
drop_key k [] = []
drop_key k (x ∷ xs) = let rest = drop_key k xs in if key_eq x k then xs else x ∷ rest

length-drop_key :
    (k : ChunkKey) (xs : List ChunkKey)
    → is_listed k xs ≡ true
    → suc (length (drop_key k xs)) ≡ length xs
unfolding is_listed drop_key
length-drop_key k [] h = absurd cc
length-drop_key k (x ∷ xs) h = elim (Bool-cases (key_eq x k)) [
  | inl e ↦ rw e refl
  | inr e ↦ rw e (ap suc (length-drop_key k xs (rw e at h)))
]

listed-drop_key :
    (k j : ChunkKey) (xs : List ChunkKey)
    → key_eq k j ≡ false
    → is_listed j (drop_key k xs) ≡ is_listed j xs
unfolding is_listed drop_key
listed-drop_key k j [] h = refl
listed-drop_key k j (x ∷ xs) h = elim (Bool-cases (key_eq x k)) [
  | inl e ↦ let same : key_eq x j ≡ false = rw (key_eq→eq x k e) h in rw (e, same) refl
  | inr e ↦ rw e (ap (λ t. key_eq x j || t) (listed-drop_key k j xs h))
]

-- What is kept apart from `d` is found without it.
still_there :
    (d : ChunkKey) (ds ks : List ChunkKey)
    → is_listed d ds ≡ false
    → All (λ k. is_listed k ks ≡ true) ds
    → All (λ k. is_listed k (drop_key d ks) ≡ true) ds
unfolding is_listed
still_there d [] ks new there = tt
still_there d (e ∷ ds) ks new (here, there) =
    let (apart, new') = or_neither (key_eq e d) (is_listed d ds) new in
    (listed-drop_key d e ks (key_eq_sym d e ∙ apart) ∙ here, still_there d ds ks new' there)

-- Distinct keys that are all in a list of at most their number: the list has no others.
pub no_others :
    (ds ks : List ChunkKey)
    → Distinct ds
    → All (λ k. is_listed k ks ≡ true) ds
    → length ks ≤ length ds
    → (j : ChunkKey) → is_listed j ks ≡ true
    → is_listed j ds ≡ true
unfolding is_listed
no_others [] [] distinct there fits j h = h
no_others [] (k ∷ ks) distinct there fits j h = absurd (omega arith)
no_others (d ∷ ds) ks (new, distinct) (here, there) fits j h = elim (Bool-cases (key_eq d j)) [
  | inl e ↦ rw e refl
  | inr e ↦
      let size = length-drop_key d ks here in
      or_right (key_eq d j) (is_listed j ds) (
        no_others ds (drop_key d ks) distinct (still_there d ds ks new there) (omega arith) j
          (listed-drop_key d j ks e ∙ h))
]

unfoldable pub keys_of : Residents → List ChunkKey
keys_of [] = []
keys_of ((k, r) ∷ m) = k ∷ keys_of m

length-keys_of : (m : Residents) → length (keys_of m) ≡ length m
unfolding keys_of
length-keys_of [] = refl
length-keys_of ((k, r) ∷ m) = ap suc (length-keys_of m)

resident-listed :
    (k : ChunkKey) (m : Residents) (r : ResidentChunk)
    → resident k m ≡ some r
    → is_listed k (keys_of m) ≡ true
unfolding keys_of is_listed find
resident-listed k [] r h = absurd cc
resident-listed k ((j, s) ∷ m) r h = elim (Bool-cases (key_eq j k)) [
  | inl e ↦ rw e refl
  | inr e ↦ rw e (resident-listed k m r (rw e at h))
]

settled-listed :
    (cfg : StreamConfig) (cx cz : ℕ) (m : Residents) (keys : List ChunkKey)
    → all_settled cfg cx cz m keys ≡ true
    → All (λ k. is_listed k (keys_of m) ≡ true) keys
unfolding all_settled
settled-listed cfg cx cz m [] h = tt
settled-listed cfg cx cz m (k ∷ keys) h =
    let (r, e, meshed, mask) =
      is_settled-IsSettled cfg cx cz m k (and_right (all_settled cfg cx cz m keys) _ h) in
    (
      resident-listed k m r e,
      settled-listed cfg cx cz m keys (and_left _ (is_settled cfg cx cz m k) h),
    )

each_listed :
    (m rest : Residents)
    → ((j : ChunkKey) → is_listed j (keys_of rest) ≡ true → is_listed j (keys_of m) ≡ true)
    → All (λ e. is_listed e.0 (keys_of m) ≡ true) rest
unfolding keys_of is_listed
each_listed m [] there = tt
each_listed m ((k, r) ∷ rest) there = (
  there k (rw (key_eq_refl k) refl),
  each_listed m rest (λ j h. there j (or_right (key_eq k j) _ h)),
)

All_wanted :
    (m rest : Residents) (keys : List ChunkKey)
    → ((j : ChunkKey) → is_listed j (keys_of m) ≡ true → is_listed j keys ≡ true)
    → All (λ e. is_listed e.0 (keys_of m) ≡ true) rest
    → All (λ e. is_listed e.0 keys ≡ true) rest
All_wanted m [] keys none_else h = tt
All_wanted m ((k, r) ∷ rest) keys none_else (here, h) =
    (none_else k here, All_wanted m rest keys none_else h)

-- When all of the wanted keys are settled and there are as many residents, every resident is wanted.
pub residents-listed :
    (cfg : StreamConfig) (cx cz : ℕ) (m : Residents) (keys : List ChunkKey)
    → Distinct keys
    → all_settled cfg cx cz m keys ≡ true
    → length keys ≡ length m
    → All (λ e. is_listed e.0 keys ≡ true) m
residents-listed cfg cx cz m keys distinct settled count =
    let size = length-keys_of m in
    All_wanted m m keys
      (no_others keys (keys_of m) distinct (settled-listed cfg cx cz m keys settled) (omega arith))
      (each_listed m m (λ j h. h))
