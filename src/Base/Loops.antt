-- ===== src/Base/Loops.antt =====
-- `for (int i = 0; i < n; ++i) s = body(i, s);` and the invariant rule for it.
use Prim.Native.Nat.{ℕ, zero, suc, ◌+◌, ◌≤◌, ◌<◌}
use mathlib.Core.Path.{◌≡◌, refl, ap, ◌∙◌}
use native.Mathlib.Omega.{arith}

unfoldable pub for_below {ℓ} : {S : Type ℓ} → ℕ → (ℕ → S → S) → S → S
for_below zero body s = s
for_below (suc n) body s = body n (for_below n body s)

-- A property that every round keeps holds after the loop.
pub for_below_inv {ℓ κ} :
    {S : Type ℓ} (P : ℕ → S → Type κ) (body : ℕ → S → S) (n : ℕ)
    → ((i : ℕ) (s : S) → i < n → P i s → P (suc i) (body i s))
    → (s : S) → P 0 s
    → P n (for_below n body s)
unfolding for_below
for_below_inv P body zero keep s h = h
for_below_inv P body (suc n) keep s h =
    keep n (for_below n body s) (omega arith)
      (for_below_inv P body n (λ i t lt. keep i t (omega arith)) s h)

-- The same for two loops that run side by side.
pub for_below_rel {ℓ κ μ} :
    {S : Type ℓ} {T : Type κ} (R : S → T → Type μ) (f : ℕ → S → S) (g : ℕ → T → T) (n : ℕ)
    → ((i : ℕ) (s : S) (t : T) → i < n → R s t → R (f i s) (g i t))
    → (s : S) (t : T) → R s t
    → R (for_below n f s) (for_below n g t)
unfolding for_below
for_below_rel R f g zero keep s t h = h
for_below_rel R f g (suc n) keep s t h =
    keep n (for_below n f s) (for_below n g t) (omega arith)
      (for_below_rel R f g n (λ i a b lt. keep i a b (omega arith)) s t h)

module _ {ℓ} {S : Type ℓ} where
  pub idle :
      (body : ℕ → S → S) (k : ℕ)
      → ((i : ℕ) → i < k → (s : S) → body i s ≡ s)
      → (s : S) → for_below k body s ≡ s
  idle body k h s = for_below_inv (λ _ t. t ≡ s) body k (λ i t hi same. h i hi t ∙ same) s refl

  idle_front :
      (body : ℕ → S → S) (k n : ℕ)
      → ((i : ℕ) → i < k → (s : S) → body i s ≡ s)
      → (s : S) → for_below (k + n) body s ≡ for_below n (λ i. body (k + i)) s
  unfolding for_below
  idle_front body k zero h s = let e : k + 0 ≡ k = omega arith in rw e (idle body k h s)
  idle_front body k (suc n) h s =
      let e : k + suc n ≡ suc (k + n) = omega arith in
      rw e (ap (body (k + n)) (idle_front body k n h s))

  idle_back :
      (body : ℕ → S → S) (n r : ℕ)
      → ((i : ℕ) → n ≤ i → i < n + r → (s : S) → body i s ≡ s)
      → (s : S) → for_below (n + r) body s ≡ for_below n body s
  unfolding for_below
  idle_back body n zero h s = let e : n + 0 ≡ n = omega arith in rw e refl
  idle_back body n (suc r) h s =
      let e : n + suc r ≡ suc (n + r) = omega arith in
      rw e (
        h (n + r) (omega arith) (omega arith) (for_below (n + r) body s)
        ∙ idle_back body n r (λ i low high. h i low (omega arith)) s)

  -- Rounds before `k`, and from `k + n` on, that change nothing can be left out.
  pub for_below_middle :
      (body : ℕ → S → S) (k n r : ℕ)
      → ((i : ℕ) → i < k → (s : S) → body i s ≡ s)
      → ((i : ℕ) → k + n ≤ i → i < k + n + r → (s : S) → body i s ≡ s)
      → (s : S) → for_below (k + n + r) body s ≡ for_below n (λ i. body (k + i)) s
  for_below_middle body k n r before after s =
      idle_back body (k + n) r after s ∙ idle_front body k n before s

  pub for_below_ext :
      (f g : ℕ → S → S) (n : ℕ)
      → ((i : ℕ) → i < n → (s : S) → f i s ≡ g i s)
      → (s : S) → for_below n f s ≡ for_below n g s
  unfolding for_below
  for_below_ext f g zero h s = refl
  for_below_ext f g (suc n) h s =
      h n (omega arith) (for_below n f s)
      ∙ ap (g n) (for_below_ext f g n (λ i hi. h i (omega arith)) s)
