-- ===== src/Base/Assoc.antt =====
-- A std::map whose order is not looked at, as an association list with one entry for each key: the
-- lookup, emplace (which keeps an entry that is there) and erase.
use voxel.Base.{
  ℕ, ◌≡◌, refl, ◌≢◌, ◌↔◌, inl, inr, Bool, true, false, Option, none, some, List, [], ◌∷◌, arith,
  ◌==◌, if◌then◌else◌, ==_iff, Bool-cases,
}

module _ {ℓ} {K : Type ℓ} (eqb : K → K → Bool) where
  -- The equality test decides the equality of keys.
  abbrev pub Decides : Type ℓ
  Decides = (a b : K) → (eqb a b ≡ true) ↔ (a ≡ b)

  pub eqb_refl : Decides → (k : K) → eqb k k ≡ true
  eqb_refl decides k = (decides k k).1 refl

  pub eqb_ne : Decides → (k j : K) → k ≢ j → eqb k j ≡ false
  eqb_ne decides k j h = elim (Bool-cases (eqb k j)) [
    | inl y ↦ absurd (h ((decides k j).0 y))
    | inr n ↦ n
  ]

module _ {ℓ κ} {K : Type ℓ} {V : Type κ} (eqb : K → K → Bool) where
  unfoldable pub find : K → List (K × V) → Option V
  find k [] = none
  find k ((k', v) ∷ m) = if eqb k' k then some v else find k m

  unfoldable pub contains : K → List (K × V) → Bool
  contains k m = elim (find k m) [ none ↦ false | some _ ↦ true ]

  unfoldable pub emplace : K → V → List (K × V) → List (K × V)
  emplace k v m = if contains k m then m else (k, v) ∷ m

  unfoldable pub erase : K → List (K × V) → List (K × V)
  erase k [] = []
  erase k ((k', v) ∷ m) = if eqb k' k then erase k m else (k', v) ∷ erase k m

module _ {ℓ κ} {K : Type ℓ} {V : Type κ} (eqb : K → K → Bool) (decides : Decides eqb) where
  pub find-emplace :
      (k j : K) (v : V) (m : List (K × V))
      → find eqb k m ≡ none
      → find eqb j (emplace eqb k v m) ≡ (if eqb k j then some v else find eqb j m)
  unfolding emplace find contains
  find-emplace k j v m h = rw (emplace, contains, h, find) refl

  pub find-erase :
      (k j : K) (m : List (K × V))
      → find eqb j (erase eqb k m) ≡ (if eqb k j then none else find eqb j m)
  unfolding find erase
  find-erase k j [] = ground arith
  find-erase k j ((k', v) ∷ m) =
      let ih = find-erase k j m in
      let t1 = decides k' k in let t2 = decides k' j in let t3 = decides k j in ground arith

-- Equality of byte strings, and of words.
unfoldable pub text_eq : List ℕ → List ℕ → Bool
text_eq [] [] = true
text_eq [] (y ∷ ys) = false
text_eq (x ∷ xs) [] = false
text_eq (x ∷ xs) (y ∷ ys) = if x == y then text_eq xs ys else false

pub text_eq-Decides : Decides text_eq
unfolding text_eq
text_eq-Decides [] [] = ground arith
text_eq-Decides [] (y ∷ ys) = ground arith
text_eq-Decides (x ∷ xs) [] = ground arith
text_eq-Decides (x ∷ xs) (y ∷ ys) = ground (arith, text_eq-Decides xs ys)

pub ==-Decides : Decides ◌==◌
==-Decides = ==_iff
