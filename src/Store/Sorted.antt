-- ===== src/Store/Sorted.antt =====
-- The ordered map of a space.
use voxel.Base.{◌≡◌, refl, inl, inr, Bool, true, false, [], ◌∷◌, arith, ==_refl, Bool-cases}
use voxel.Bytes.Order.{bytes_less}
use voxel.Store.{Bytes, Space, assign, remove}

pub bytes_less_irrefl : (x : Bytes) → bytes_less x x ≡ false
unfolding bytes_less
bytes_less_irrefl [] = refl
bytes_less_irrefl (b ∷ x) = rw (==_refl b) (bytes_less_irrefl x)

pub bytes_less_trans :
    (x y z : Bytes) → bytes_less x y ≡ true → bytes_less y z ≡ true → bytes_less x z ≡ true
unfolding bytes_less
bytes_less_trans [] [] z h g = absurd cc
bytes_less_trans [] (b ∷ y) [] h g = absurd cc
bytes_less_trans [] (b ∷ y) (c ∷ z) h g = refl
bytes_less_trans (a ∷ x) [] z h g = absurd cc
bytes_less_trans (a ∷ x) (b ∷ y) [] h g = absurd cc
bytes_less_trans (a ∷ x) (b ∷ y) (c ∷ z) h g = ground (arith, bytes_less_trans x y z)

-- Keys that are not ordered either way are the same.
pub bytes_less_connex : (x y : Bytes) → bytes_less x y ≡ false → bytes_less y x ≡ false → x ≡ y
unfolding bytes_less
bytes_less_connex [] [] h g = refl
bytes_less_connex [] (b ∷ y) h g = absurd cc
bytes_less_connex (a ∷ x) [] h g = absurd cc
bytes_less_connex (a ∷ x) (b ∷ y) h g = ground (arith, bytes_less_connex x y)

-- Every key is above `low`, and the keys ascend.
abbrev pub Above : Bytes → Space → Type 0
Above low [] = Unit
Above low (e ∷ m) = (bytes_less low e.0 ≡ true) × Above e.0 m

abbrev pub Ascends : Space → Type 0
Ascends [] = Unit
Ascends (e ∷ m) = Above e.0 m

pub Above-weaken :
    (low high : Bytes) (m : Space) → bytes_less low high ≡ true → Above high m → Above low m
Above-weaken low high [] h a = tt
Above-weaken low high (e ∷ m) h a = (bytes_less_trans low high e.0 h a.0, a.1)

pub bytes_less_asym : (x y : Bytes) → bytes_less x y ≡ true → bytes_less y x ≡ false
bytes_less_asym x y h = elim (Bool-cases (bytes_less y x)) [
  | inl g ↦ absurd (clash (bytes_less_trans x y x h g) (bytes_less_irrefl x))
  | inr n ↦ n
]
  where
    clash : {b : Bool} → b ≡ true → b ≡ false → ⊥
    clash t f = cc

-- How two keys stand to each other.
pub data Order (x y : Bytes) : Type 0 where
  before : bytes_less x y ≡ true → bytes_less y x ≡ false → Order x y
  after : bytes_less x y ≡ false → bytes_less y x ≡ true → Order x y
  same : x ≡ y → bytes_less x y ≡ false → bytes_less y x ≡ false → Order x y

pub order : (x y : Bytes) → Order x y
order x y = elim (Bool-cases (bytes_less x y)) [
  | inl h ↦ before h (bytes_less_asym x y h)
  | inr n ↦ elim (Bool-cases (bytes_less y x)) [
    | inl g ↦ after n g
    | inr m ↦ same (bytes_less_connex x y n m) n m
  ]
]

Above-assign :
    (low key value : Bytes) (m : Space)
    → bytes_less low key ≡ true
    → Above low m
    → Above low (assign m key value)
unfolding assign
Above-assign low key value [] h a = (h, tt)
Above-assign low key value ((k, v) ∷ m) h a = elim (order k key) [
  | before y n ↦ rw y (a.0, Above-assign k key value m y a.1)
  | after n y ↦ rw (n, y) (h, (y, a.1))
  | same e n n' ↦ rw (n, n') a
]

Above-remove : (low key : Bytes) (m : Space) → Above low m → Above low (remove m key)
unfolding remove
Above-remove low key [] a = tt
Above-remove low key ((k, v) ∷ m) a = elim (order k key) [
  | before y n ↦ rw y (a.0, Above-remove k key m a.1)
  | after n y ↦ rw (n, y) a
  | same e n n' ↦ rw (n, n') (Above-weaken low k m a.0 a.1)
]

pub Ascends-Above : (low : Bytes) (m : Space) → Above low m → Ascends m
Ascends-Above low [] a = tt
Ascends-Above low (e ∷ m) a = a.1

pub Ascends-assign : (m : Space) (key value : Bytes) → Ascends m → Ascends (assign m key value)
unfolding assign
Ascends-assign [] key value a = tt
Ascends-assign ((k, v) ∷ m) key value a = elim (order k key) [
  | before y n ↦ rw y (Above-assign k key value m y a)
  | after n y ↦ rw (n, y) (y, a)
  | same e n n' ↦ rw (n, n') a
]

pub Ascends-remove : (m : Space) (key : Bytes) → Ascends m → Ascends (remove m key)
unfolding remove
Ascends-remove [] key a = tt
Ascends-remove ((k, v) ∷ m) key a = elim (order k key) [
  | before y n ↦ rw y (Above-remove k key m a)
  | after n y ↦ rw (n, y) a
  | same e n n' ↦ rw (n, n') (Ascends-Above k m a)
]
