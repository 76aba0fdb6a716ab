-- ===== src/Base/Lists.antt =====
-- Lists measured and indexed by native numbers, under the library's names.
use Prim.Native.Nat.{ℕ, zero, suc, ◌+◌, ◌<◌}
use mathlib.Core.Path.{◌≡◌, refl, ap, ap₂}
use mathlib.Core.Logic.{◌≢◌}
use mathlib.Core.List.{List, [], ◌∷◌, ◌++◌, map}
use mathlib.Core.Option.{Option, none, some}
use native.Mathlib.Omega.{arith}

module _ {ℓ} {A : Type ℓ} where
  abbrev pub length : List A → ℕ
  length [] = 0
  length (x ∷ xs) = suc (length xs)

  abbrev pub get_elem? : List A → ℕ → Option A
  get_elem? [] i = none
  get_elem? (x ∷ xs) zero = some x
  get_elem? (x ∷ xs) (suc i) = get_elem? xs i

  abbrev pub get_or : List A → ℕ → A → A
  get_or [] i d = d
  get_or (x ∷ xs) zero d = x
  get_or (x ∷ xs) (suc i) d = get_or xs i d

  -- A write out of bounds changes nothing.
  abbrev pub set : List A → ℕ → A → List A
  set [] i v = []
  set (x ∷ xs) zero v = v ∷ xs
  set (x ∷ xs) (suc i) v = x ∷ set xs i v

  abbrev pub replicate : ℕ → A → List A
  replicate zero a = []
  replicate (suc n) a = a ∷ replicate n a

  abbrev pub take : ℕ → List A → List A
  take zero xs = []
  take (suc n) [] = []
  take (suc n) (x ∷ xs) = x ∷ take n xs

  abbrev pub drop : ℕ → List A → List A
  drop zero xs = xs
  drop (suc n) [] = []
  drop (suc n) (x ∷ xs) = drop n xs

  pub take-append : (xs ys : List A) → take (length xs) (xs ++ ys) ≡ xs
  take-append [] ys = refl
  take-append (x ∷ xs) ys = ap (◌∷◌ x) (take-append xs ys)

  pub drop-append : (xs ys : List A) → drop (length xs) (xs ++ ys) ≡ ys
  drop-append [] ys = refl
  drop-append (x ∷ xs) ys = drop-append xs ys

  abbrev pub All {κ} : (A → Type κ) → List A → Type κ
  All P [] = Unit {κ}
  All P (x ∷ xs) = P x × All P xs

  pub length-append : (xs ys : List A) → length (xs ++ ys) ≡ length xs + length ys
  length-append [] ys = omega arith
  length-append (x ∷ xs) ys = omega (arith, length-append xs ys)

  pub length-set : (xs : List A) (i : ℕ) (v : A) → length (set xs i v) ≡ length xs
  length-set [] i v = refl
  length-set (x ∷ xs) zero v = refl
  length-set (x ∷ xs) (suc i) v = ap suc (length-set xs i v)

  pub length-replicate : (n : ℕ) (a : A) → length (replicate n a) ≡ n
  length-replicate zero a = refl
  length-replicate (suc n) a = ap suc (length-replicate n a)

module _ {ℓ} {A : Type ℓ} where
  pub get_or-append_right :
      (xs ys : List A) (i : ℕ) (d : A) → get_or (xs ++ ys) (length xs + i) d ≡ get_or ys i d
  get_or-append_right [] ys i d = let e : 0 + i ≡ i = omega arith in rw e
  get_or-append_right (x ∷ xs) ys i d =
      let e : suc (length xs) + i ≡ suc (length xs + i) = omega arith in
      rw e (get_or-append_right xs ys i d)

  pub get_or-append_left :
      (xs ys : List A) (i : ℕ) (d : A) → i < length xs → get_or (xs ++ ys) i d ≡ get_or xs i d
  get_or-append_left [] ys i d h = elim h [ ]
  get_or-append_left (x ∷ xs) ys zero d h = refl
  get_or-append_left (x ∷ xs) ys (suc i) d h = get_or-append_left xs ys i d (omega arith)

  pub get_or-append_last : (xs : List A) (y d : A) → get_or (xs ++ y ∷ []) (length xs) d ≡ y
  get_or-append_last [] y d = refl
  get_or-append_last (x ∷ xs) y d = get_or-append_last xs y d

  pub get_or-set_self :
      (xs : List A) (i : ℕ) (v d : A) → i < length xs → get_or (set xs i v) i d ≡ v
  get_or-set_self [] i v d h = elim h [ ]
  get_or-set_self (x ∷ xs) zero v d h = refl
  get_or-set_self (x ∷ xs) (suc i) v d h = get_or-set_self xs i v d (omega arith)

  pub get_or-set_ne :
      (xs : List A) (i j : ℕ) (v d : A) → i ≢ j → get_or (set xs i v) j d ≡ get_or xs j d
  get_or-set_ne [] i j v d h = refl
  get_or-set_ne (x ∷ xs) zero zero v d h = absurd (h refl)
  get_or-set_ne (x ∷ xs) zero (suc j) v d h = refl
  get_or-set_ne (x ∷ xs) (suc i) zero v d h = refl
  get_or-set_ne (x ∷ xs) (suc i) (suc j) v d h = get_or-set_ne xs i j v d (λ e. h (ap suc e))

  pub get_or-replicate : (n i : ℕ) (a : A) → get_or (replicate n a) i a ≡ a
  get_or-replicate zero i a = refl
  get_or-replicate (suc n) zero a = refl
  get_or-replicate (suc n) (suc i) a = get_or-replicate n i a

  -- A write just past a front replaces the element that stands there.
  pub set-append : (xs ys : List A) (y v : A) → set (xs ++ y ∷ ys) (length xs) v ≡ xs ++ v ∷ ys
  set-append [] ys y v = refl
  set-append (x ∷ xs) ys y v = ap (◌∷◌ x) (set-append xs ys y v)

  -- A list is the table of its elements.
  abbrev pub tabulate : ℕ → (ℕ → A) → List A
  tabulate zero f = []
  tabulate (suc n) f = f 0 ∷ tabulate n (λ i. f (suc i))

  pub eq_tabulate :
      (n : ℕ) (xs : List A) (d : A) → length xs ≡ n → xs ≡ tabulate n (λ i. get_or xs i d)
  eq_tabulate zero [] d e = refl
  eq_tabulate zero (x ∷ xs) d e = absurd (omega arith)
  eq_tabulate (suc n) [] d e = absurd (omega arith)
  eq_tabulate (suc n) (x ∷ xs) d e = ap (◌∷◌ x) (eq_tabulate n xs d (omega arith))

  -- Lists of one length that agree at every index are equal.
  pub eq_of_get_or :
      (xs ys : List A) (d : A)
      → length xs ≡ length ys
      → ((i : ℕ) → i < length xs → get_or xs i d ≡ get_or ys i d)
      → xs ≡ ys
  eq_of_get_or [] [] d e h = refl
  eq_of_get_or [] (y ∷ ys) d e h = absurd (omega arith)
  eq_of_get_or (x ∷ xs) [] d e h = absurd (omega arith)
  eq_of_get_or (x ∷ xs) (y ∷ ys) d e h =
      ap₂ ◌∷◌ (h 0 (omega arith))
        (eq_of_get_or xs ys d (omega arith) (λ i lt. h (suc i) (omega arith)))

  pub All-get_or {κ} :
      (P : A → Type κ) (xs : List A) (i : ℕ) (d : A) → All P xs → i < length xs → P (get_or xs i d)
  All-get_or P [] i d a h = elim h [ ]
  All-get_or P (x ∷ xs) zero d a h = a.0
  All-get_or P (x ∷ xs) (suc i) d a h = All-get_or P xs i d a.1 (omega arith)

  pub All-append {κ} : (P : A → Type κ) (xs ys : List A) → All P xs → All P ys → All P (xs ++ ys)
  All-append P [] ys a b = b
  All-append P (x ∷ xs) ys a b = (a.0, All-append P xs ys a.1 b)

  pub All-set {κ} :
      (P : A → Type κ) (xs : List A) (i : ℕ) (v : A) → All P xs → P v → All P (set xs i v)
  All-set P [] i v a p = a
  All-set P (x ∷ xs) zero v a p = (p, a.1)
  All-set P (x ∷ xs) (suc i) v a p = (a.0, All-set P xs i v a.1 p)

module _ {ℓ κ} {A : Type ℓ} {B : Type κ} where
  pub get_or-map :
      (f : A → B) (xs : List A) (i : ℕ) (a : A) (b : B)
      → i < length xs
      → get_or (map f xs) i b ≡ f (get_or xs i a)
  get_or-map f [] i a b h = elim h [ ]
  get_or-map f (x ∷ xs) zero a b h = refl
  get_or-map f (x ∷ xs) (suc i) a b h = get_or-map f xs i a b (omega arith)

  pub length-map : (f : A → B) (xs : List A) → length (map f xs) ≡ length xs
  length-map f [] = refl
  length-map f (x ∷ xs) = ap suc (length-map f xs)
