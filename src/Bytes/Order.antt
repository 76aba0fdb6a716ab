-- ===== src/Bytes/Order.antt =====
-- The lexicographic order of byte strings: uuidLess of src/world/identity.hpp and the order of
-- the keys of a std::map over byte vectors (src/store/memory_store.hpp). On strings of one length
-- it is the order of the big-endian numbers that they write.
use voxel.Base.{
  ℕ, suc, ◌+◌, ◌*◌, ◌^◌, ◌<◌, ◌≡◌, refl, sym, ap, subst, Bool, true, false, List, [], ◌∷◌, arith,
  ltb, ◌==◌, if◌then◌else◌, length, All,
}
use voxel.Bytes.{IsByte}
use native.Mathlib.Nat.{pow-suc, mul-le-mul_right}

-- operator< of std::vector<std::byte>: a proper prefix comes first.
unfoldable pub bytes_less : List ℕ → List ℕ → Bool
bytes_less [] [] = false
bytes_less [] (y ∷ ys) = true
bytes_less (x ∷ xs) [] = false
bytes_less (x ∷ xs) (y ∷ ys) = if x == y then bytes_less xs ys else ltb x y

unfoldable pub big_endian : List ℕ → ℕ
big_endian [] = 0
big_endian (x ∷ xs) = x * 256 ^ length xs + big_endian xs

pub big_endian-lt : (xs : List ℕ) → All IsByte xs → big_endian xs < 256 ^ length xs
unfolding big_endian
big_endian-lt [] p = omega arith
big_endian-lt (x ∷ xs) p =
    let rest = big_endian-lt xs p.1 in
    let top = mul-le-mul_right {m = x} {n = 255} (256 ^ length xs) (omega (arith, p.0)) in
    omega (arith, rest, top, pow-suc 256 (length xs))

higher : (x y r t w : ℕ) → r < w → x < y → x * w + r < y * w + t
higher x y r t w h g =
    let up = mul-le-mul_right {m = suc x} {n = y} w (omega arith) in
    let e : suc x * w ≡ x * w + w = omega arith in omega (arith, up, e)

-- The first digit decides, and the rest where the first digits agree.
pub digit_order :
    (x y r t w : ℕ)
    → r < w
    → t < w
    → (if x == y then ltb r t else ltb x y) ≡ ltb (x * w + r) (y * w + t)
digit_order x y r t w h g =
    let same : x ≡ y → x * w ≡ y * w = λ e. ap (λ k. k * w) e in
    ground (arith, higher x y r t w h, higher y x t r w g, same)

pub bytes_less-big_endian :
    (xs ys : List ℕ)
    → All IsByte xs
    → All IsByte ys
    → length xs ≡ length ys
    → bytes_less xs ys ≡ ltb (big_endian xs) (big_endian ys)
unfolding bytes_less big_endian
bytes_less-big_endian [] [] p q e = refl
bytes_less-big_endian [] (y ∷ ys) p q e = absurd (omega arith)
bytes_less-big_endian (x ∷ xs) [] p q e = absurd (omega arith)
bytes_less-big_endian (x ∷ xs) (y ∷ ys) p q e =
    let same : length ys ≡ length xs = omega arith in
    let hy : big_endian ys < 256 ^ length xs =
      subst (λ n. big_endian ys < 256 ^ n) same (big_endian-lt ys q.1) in
    rw (bytes_less-big_endian xs ys p.1 q.1 (sym same), same)
      (digit_order x y (big_endian xs) (big_endian ys) (256 ^ length xs) (big_endian-lt xs p.1) hy)
