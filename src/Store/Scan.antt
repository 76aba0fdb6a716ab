-- ===== src/Store/Scan.antt =====
-- The scan of a prefix visits exactly the entries whose key has the prefix, in the order of the keys.
use voxel.Base.{
  ◌≡◌, refl, ap, ◌∙◌, inl, inr, Bool, true, false, [], ◌∷◌, arith, if◌then◌else◌, Bool-cases, All,
}
use voxel.Bytes.Order.{bytes_less}
use voxel.Store.{
  StoreSpace, Bytes, Space, MemoryStore, space_of, lower_bound, has_prefix, visit_from, scan_prefix,
}
use voxel.Store.Sorted.{Above, Ascends, Ascends-Above, Above-weaken, bytes_less_trans}
use voxel.Store.Laws.{Inv, space_of-Ascends}

-- The entries whose key has the prefix.
unfoldable pub matching : Bytes → Space → Space
matching p [] = []
matching p ((k, v) ∷ m) = if has_prefix p k then (k, v) ∷ matching p m else matching p m

-- A key that has the prefix is not below it.
prefix_not_below : (p k : Bytes) → has_prefix p k ≡ true → bytes_less k p ≡ false
unfolding has_prefix bytes_less
prefix_not_below [] [] h = refl
prefix_not_below [] (y ∷ k) h = refl
prefix_not_below (x ∷ p) [] h = absurd cc
prefix_not_below (x ∷ p) (y ∷ k) h = ground (arith, prefix_not_below p k)

below_no_prefix : (p k : Bytes) → bytes_less k p ≡ true → has_prefix p k ≡ false
below_no_prefix p k h = elim (Bool-cases (has_prefix p k)) [
  | inl y ↦ absurd (clash h (prefix_not_below p k y))
  | inr n ↦ n
]
  where
    clash : {b : Bool} → b ≡ true → b ≡ false → ⊥
    clash t f = cc

-- The keys with a prefix stand together: between the prefix and a key that has it, all have it.
prefix_interval :
    (p k l : Bytes)
    → bytes_less k p ≡ false
    → bytes_less k l ≡ true
    → has_prefix p l ≡ true
    → has_prefix p k ≡ true
unfolding has_prefix bytes_less
prefix_interval [] k l h g q = refl
prefix_interval (x ∷ p) [] l h g q = absurd cc
prefix_interval (x ∷ p) (y ∷ k) [] h g q = absurd cc
prefix_interval (x ∷ p) (y ∷ k) (z ∷ l) h g q = ground (arith, prefix_interval p k l)

no_match :
    (p k : Bytes) (m : Space)
    → bytes_less k p ≡ false
    → has_prefix p k ≡ false
    → Above k m
    → matching p m ≡ []
unfolding matching
no_match p k [] h n a = refl
no_match p k ((l, v) ∷ m) h n a = elim (Bool-cases (has_prefix p l)) [
  | inl y ↦ absurd (clash (prefix_interval p k l h a.0 y) n)
  | inr d ↦ rw d (no_match p k m h n (Above-weaken k l m a.0 a.1))
]
  where
    clash : {b : Bool} → b ≡ true → b ≡ false → ⊥
    clash t f = cc

not_below :
    (p k l : Bytes) → bytes_less k p ≡ false → bytes_less k l ≡ true → bytes_less l p ≡ false
not_below p k l h g = elim (Bool-cases (bytes_less l p)) [
  | inl y ↦ absurd (clash (bytes_less_trans k l p g y) h)
  | inr n ↦ n
]
  where
    clash : {b : Bool} → b ≡ true → b ≡ false → ⊥
    clash t f = cc

all_not_below :
    (p k : Bytes) (m : Space)
    → bytes_less k p ≡ false
    → Above k m
    → All (λ e. bytes_less e.0 p ≡ false) m
all_not_below p k [] h a = tt
all_not_below p k (e ∷ m) h a =
    let first = not_below p k e.0 h a.0 in (first, all_not_below p e.0 m first a.1)

-- The entries from the lower bound on.
lower_bound-kept :
    (m : Space) (p : Bytes)
    → Ascends m
    → Ascends (lower_bound m p)
      × All (λ e. bytes_less e.0 p ≡ false) (lower_bound m p)
      × (matching p (lower_bound m p) ≡ matching p m)
unfolding lower_bound matching
lower_bound-kept [] p a = (tt, tt, refl)
lower_bound-kept ((k, v) ∷ m) p a = elim (Bool-cases (bytes_less k p)) [
  | inl y ↦
      let rest = lower_bound-kept m p (Ascends-Above k m a) in
      let skip : has_prefix p k ≡ false = below_no_prefix p k y in rw (y, skip) rest
  | inr n ↦ rw n (a, (n, all_not_below p k m n a), refl)
]

module _ {S : Type 0} (visit : S → Bytes → Bytes → S × Bool) where
  -- The visits of the entries of a list, as long as the visitor wants to go on.
  unfoldable pub visit_all : S → Space → S
  visit_all s [] = s
  visit_all s ((k, v) ∷ m) =
      let next = visit s k v in let rest = visit_all next.0 m in if next.1 then rest else next.0

  visit_from-matching :
      (p : Bytes) (s : S) (m : Space)
      → Ascends m
      → All (λ e. bytes_less e.0 p ≡ false) m
      → visit_from visit p s m ≡ visit_all s (matching p m)
  unfolding visit_from visit_all matching
  visit_from-matching p s [] a b = refl
  visit_from-matching p s ((k, v) ∷ m) a b = elim (Bool-cases (has_prefix p k)) [
    | inl y ↦
        let next = visit s k v in
        let ih = visit_from-matching p next.0 m (Ascends-Above k m a) b.1 in
        rw y (elim (Bool-cases next.1) [ inl go ↦ rw go ih | inr stop ↦ rw stop refl ])
    | inr n ↦ rw (n, no_match p k m b.0 n a) refl
  ]

-- A scan shows its visitor the entries of the space whose keys have the prefix, all of them and no
-- others, in the ascending order of the keys, until the visitor answers false.
pub scan_prefix-matching :
    {S : Type 0}
    → (visit : S → Bytes → Bytes → S × Bool) (store : MemoryStore) (space : StoreSpace) (p : Bytes)
      (s : S)
    → Inv store
    → (scan_prefix visit store space p s ≡ visit_all visit s (matching p (space_of store space)))
      × Ascends (space_of store space)
unfolding scan_prefix
scan_prefix-matching visit store space p s v =
    let ascends = space_of-Ascends store space v in
    let kept = lower_bound-kept (space_of store space) p ascends in
    (
      visit_from-matching visit p s (lower_bound (space_of store space) p) kept.0 kept.1
          ∙ ap (visit_all visit s) kept.2,
      ascends,
    )
