-- ===== src/Jobs/Writes.antt =====
-- A parallel loop whose rounds each write their own element of a list.
use voxel.Base.{
  fun_ext, ℕ, suc, ◌+◌, ◌-◌, ◌%◌, ◌^◌, ◌≤◌, ◌<◌, ◌≡◌, refl, sym, ap, ◌∙◌, subst, inl, inr, Bool,
  true, false, ◌&&◌, ◌||◌, some, List, [], ◌∷◌, arith, ltb, leb, ◌==◌, if◌then◌else◌, ==_refl,
  Bool-cases, length, get_or, set, length-set, get_or-set_self, get_or-set_ne, eq_of_get_or,
}
use voxel.Base.Loops.{for_below, for_below_inv}
use voxel.Jobs.{Range, Scheduler, run_range, run_ranges, completed, parallel_for}

abbrev in_range : Range → ℕ → Bool
in_range range i = leb range.start i && ltb i range.end

unfoldable pub in_some : List Range → ℕ → Bool
in_some [] i = false
in_some (range ∷ ranges) i = in_range range i || in_some ranges i

unfoldable pub lengths : List Range → ℕ
lengths [] = 0
lengths (range ∷ ranges) = range.end - range.start + lengths ranges

-- Every index below `count` is in a range, and the ranges hold `count` indices in all, so that none
-- is in two.
abbrev pub Splits : List Range → ℕ → Type 0
Splits ranges count = ((i : ℕ) → i < count → in_some ranges i ≡ true) × (lengths ranges ≡ count)

completed-lengths :
    (ranges : List Range) (n : ℕ)
    → n + lengths ranges < 2 ^ 64
    → completed ranges n ≡ n + lengths ranges
unfolding completed lengths
completed-lengths [] n h = omega arith
completed-lengths (range ∷ ranges) n h =
    let small : (n + (range.end - range.start)) % 2 ^ 64 ≡ n + (range.end - range.start) =
      omega arith in
    rw small (completed-lengths ranges (n + (range.end - range.start)) (omega arith) ∙ omega arith)

module _ {ℓ} {A : Type ℓ} (value : ℕ → A) (d : A) where
  -- `out[i] = value(i)`
  abbrev pub write_own : ℕ → List A → List A
  write_own i out = set out i (value i)

  -- The elements that the test names are written, and the others as they were.
  abbrev Written : (ℕ → Bool) → List A → List A → Type ℓ
  Written test before after =
      (length after ≡ length before)
      × ((i : ℕ)
          → i < length before
          → get_or after i d ≡ (if test i then value i else get_or before i d))

  get_or-set_own :
      (out : List A) (i j : ℕ)
      → j < length out
      → get_or (set out i (value i)) j d ≡ (if i == j then value j else get_or out j d)
  get_or-set_own out i j h = elim (Bool-cases (i == j)) [
    | inl e ↦ let same : i ≡ j = ground arith in rw (e, same) (get_or-set_self out j (value j) d h)
    | inr e ↦ rw e (get_or-set_ne out i j (value i) d (λ same. ground arith))
  ]

  -- Two rounds of writes, one after the other.
  both :
      (p q : Bool) (v b : A) → (if q then v else (if p then v else b)) ≡ (if p || q then v else b)
  both true true v b = refl
  both true false v b = refl
  both false q v b = refl

  rounds-Written :
      (start n : ℕ) (out : List A)
      → Written
          (λ i. leb start i && ltb i (start + n))
          out
          (for_below n (λ i. write_own (start + i)) out)
  rounds-Written start n out =
      for_below_inv (λ k. Written (λ i. leb start i && ltb i (start + k)) out) _ n
        (λ k now hk (same, h). (
          length-set now (start + k) (value (start + k)) ∙ same,
          λ i hi.
              get_or-set_own now (start + k) i (omega arith)
              ∙ rw
                  (
                    h i hi,
                    both (leb start i && ltb i (start + k)) (start + k == i) (value i)
                        (get_or out i d),
                    grows start k i,
                  )
                  refl,
        ))
        out (refl, λ i hi. rw (nothing start i) refl)
    where
      grows :
          (start k i : ℕ)
          → (leb start i && ltb i (start + k) || start + k == i)
            ≡ (leb start i && ltb i (start + suc k))
      grows start k i = ground arith

      nothing : (start i : ℕ) → (leb start i && ltb i (start + 0)) ≡ false
      nothing start i = ground arith

  run_range-Written :
      (range : Range) (out : List A) → Written (in_range range) out (run_range range write_own out)
  unfolding run_range
  run_range-Written range out =
      let (same, h) = rounds-Written range.start (range.end - range.start) out in
      (same, λ i hi. h i hi ∙ rw (ends range.start range.end i) refl)
    where
      ends :
          (start end i : ℕ)
          → (leb start i && ltb i (start + (end - start))) ≡ (leb start i && ltb i end)
      ends start end i = ground arith

  run_ranges-Written :
      (ranges : List Range) (out : List A)
      → Written (in_some ranges) out (run_ranges ranges write_own out)
  unfolding run_ranges in_some
  run_ranges-Written [] out = (refl, λ i hi. refl)
  run_ranges-Written (range ∷ ranges) out =
      let (same, h) = run_range-Written range out in
      let (same', h') = run_ranges-Written ranges (run_range range write_own out) in
      (
        same' ∙ same,
        λ i hi.
            h' i (omega arith)
            ∙ rw (h i hi, both (in_range range i) (in_some ranges i) (value i) (get_or out i d))
                refl,
      )

  -- Two runs that write the same elements end in the same list.
  same_result :
      (p q : ℕ → Bool) (out after other : List A)
      → Written p out after
      → Written q out other
      → ((i : ℕ) → i < length out → p i ≡ q i)
      → after ≡ other
  same_result p q out after other (la, ha) (lo, ho) agree =
      eq_of_get_or after other d (la ∙ sym lo)
        (λ i hi. ha i (omega arith) ∙ rw (agree i (omega arith), ho i (omega arith)) refl)

  serial_writes :
      (count : ℕ) (out : List A)
      → Written (λ i. leb 0 i && ltb i (0 + count)) out (for_below count write_own out)
  serial_writes count out =
      let shift : (λ i. write_own (0 + i)) ≡ write_own =
        fun_ext (λ i. let e : 0 + i ≡ i = omega arith in rw e refl) in
      subst (λ body. Written (λ i. leb 0 i && ltb i (0 + count)) out (for_below count body out))
        shift (rounds-Written 0 count out)

  -- When the scheduler's ranges hold every index once, the parallel loop ends, and a body whose
  -- rounds write_own their own elements leaves what the serial loop leaves, in whatever order the ranges
  -- complete.
  pub parallel_for-write :
      (scheduler : Scheduler) (count grain : ℕ) (out : List A)
      → ((at_least : ℕ) → 0 < at_least → Splits (scheduler count at_least) count)
      → length out ≡ count
      → parallel_for scheduler count grain write_own out ≡ some (for_below count write_own out)
  unfolding parallel_for for_below
  parallel_for-write scheduler count grain out splits size =
      let at_least = if grain == 0 then 1 else grain in
      let ranges = scheduler count at_least in
      elim (Bool-cases (count == 0)) [
        | inl e ↦ let zero_count : count ≡ 0 = ground arith in rw zero_count refl
        | inr e ↦ elim (Bool-cases (ltb 0xFFFFFFFF count || ltb 0xFFFFFFFF at_least)) [
          | inl big ↦ rw (e, big) refl
          | inr fits ↦
              let (all, total) = splits at_least (at_least_one grain) in
              let small : count ≤ 0xFFFFFFFF = ground arith in
              let counted : completed ranges 0 ≡ count =
                completed-lengths ranges 0 (omega arith) ∙ omega arith in
              rw (e, fits, counted, ==_refl count)
                (ap some (
                  same_result (in_some ranges) (λ i. leb 0 i && ltb i (0 + count)) out _ _
                    (run_ranges-Written ranges out) (serial_writes count out)
                    (λ i hi. rw (all i (omega arith)) (ground arith))))
        ]
      ]
    where
      at_least_one : (grain : ℕ) → 0 < (if grain == 0 then 1 else grain)
      at_least_one grain = elim (Bool-cases (grain == 0)) [
        | inl e ↦ rw e (omega arith)
        | inr e ↦ rw e (ground arith)
      ]
