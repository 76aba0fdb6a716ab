-- ===== src/Identity/Text.antt =====
-- The text form of a UUID: what formatUuid prints, parseUuid reads back.
use voxel.Base.{
  ℕ, suc, ◌/◌, ◌%◌, ◌^◌, ◌<◌, bit_and, ◌≡◌, refl, sym, ap, ◌∙◌, subst, Bool, true, false, not, ◌&&◌,
  ◌||◌, none, some, List, [], ◌∷◌, ◌++◌, append_assoc, arith, ◌==◌, if◌then◌else◌, length, set,
  replicate, All, length-append, set-append, eq_tabulate,
}
use voxel.Base.Bits.{bit_or_high, bit_and_mask, holds_below, holds_below_at}
use voxel.Bytes.{IsByte}
use voxel.Identity.{
  Uuid, dash, hex, format_byte, format_from, format_uuid, nibble, pair_value, parse_pairs,
  lacks_dash, parse_uuid,
}

abbrev pub IsUuid : Uuid → Type 0
IsUuid u = (length u.bytes ≡ 16) × All IsByte u.bytes

-- One digit is read back, and is no dash.
reads_back : ℕ → Bool
reads_back n = elim (nibble (hex n)) [ none ↦ false | some v ↦ v == n ] && not (hex n == dash)

reads_back-fields :
    (n : ℕ) → reads_back n ≡ true → (nibble (hex n) ≡ some n) × ((hex n == dash) ≡ false)
unfolding reads_back
reads_back-fields n t = ground arith

nibble-hex : (n : ℕ) → n < 16 → (nibble (hex n) ≡ some n) × ((hex n == dash) ≡ false)
unfolding reads_back holds_below nibble hex
nibble-hex n h =
    let t : reads_back n ≡ true = holds_below_at reads_back 16 n refl h in reads_back-fields n t

pair_value-hex : (b : ℕ) → b < 256 → pair_value (hex (b / 2 ^ 4)) (hex (bit_and b 0x0F)) ≡ some b
unfolding pair_value
pair_value-hex b h =
    let low : bit_and b 0x0F ≡ b % 16 = bit_and_mask 4 b in
    let hi = (nibble-hex (b / 2 ^ 4) (omega arith)).0 in
    let lo = (nibble-hex (b % 16) (omega arith)).0 in
    rw (low, hi, lo, bit_or_high 4 (b / 2 ^ 4) (b % 16) (omega arith)) (ap some (omega arith))

parse_pairs-pair :
    (past at c d v : ℕ) (bytes rest : List ℕ)
    → (c == dash) ≡ false
    → pair_value c d ≡ some v
    → parse_pairs past bytes at (c ∷ d ∷ rest) ≡ parse_pairs past (set bytes at v) (suc at) rest
unfolding parse_pairs
parse_pairs-pair past at c d v bytes rest e p = ground (arith, e, p)

parse_pairs-dash :
    (past at d : ℕ) (bytes rest : List ℕ)
    → parse_pairs past bytes at (dash ∷ d ∷ rest) ≡ parse_pairs past bytes at (d ∷ rest)
unfolding parse_pairs
parse_pairs-dash past at d bytes rest = refl

-- A pair of digits, behind a dash or not.
parse_pairs-dashed :
    (past at c d v : ℕ) (bytes rest : List ℕ) (dashed : Bool)
    → (c == dash) ≡ false
    → pair_value c d ≡ some v
    → parse_pairs past bytes at (((if dashed then dash ∷ [] else []) ++ c ∷ d ∷ []) ++ rest)
      ≡ parse_pairs past (set bytes at v) (suc at) rest
parse_pairs-dashed past at c d v bytes rest true e p =
    parse_pairs-dash past at c bytes (d ∷ rest) ∙ parse_pairs-pair past at c d v bytes rest e p
parse_pairs-dashed past at c d v bytes rest false e p =
    parse_pairs-pair past at c d v bytes rest e p

parse_pairs-end : (past at : ℕ) (bytes : List ℕ) → parse_pairs past bytes at [] ≡ some bytes
unfolding parse_pairs
parse_pairs-end past at bytes = refl

parse_pairs-format_from :
    (past i : ℕ) (done bs : List ℕ)
    → All IsByte bs
    → parse_pairs past (done ++ replicate (length bs) 0) (length done) (format_from i bs)
      ≡ some (done ++ bs)
unfolding format_from format_byte
parse_pairs-format_from past i done [] p = parse_pairs-end past (length done) (done ++ []) ∙ refl
parse_pairs-format_from past i done (b ∷ bs) p =
    let zeros : List ℕ = replicate (length bs) 0 in
    let dashed = i == 4 || i == 6 || i == 8 || i == 10 in
    let digit : (hex (b / 2 ^ 4) == dash) ≡ false =
      (nibble-hex (b / 2 ^ 4) (omega (arith, p.0))).1 in
    parse_pairs-dashed past (length done) (hex (b / 2 ^ 4)) (hex (bit_and b 0x0F)) b
      (done ++ 0 ∷ zeros) (format_from (suc i) bs) dashed digit (pair_value-hex b p.0)
    ∙ rw (set-append done zeros 0 b)
        (shift (parse_pairs-format_from past (suc i) (done ++ b ∷ []) bs p.1))
  where
    shift :
        parse_pairs past
            ((done ++ b ∷ []) ++ replicate (length bs) 0)
            (length (done ++ b ∷ []))
            (format_from (suc i) bs)
          ≡ some ((done ++ b ∷ []) ++ bs)
        → parse_pairs past
            (done ++ b ∷ replicate (length bs) 0)
            (suc (length done))
            (format_from (suc i) bs)
          ≡ some (done ++ b ∷ bs)
    shift h =
        let front = append_assoc done (b ∷ []) (replicate (length bs) 0) in
        let whole = append_assoc done (b ∷ []) bs in
        let count : length (done ++ b ∷ []) ≡ suc (length done) =
          length-append done (b ∷ []) ∙ omega arith in
        cc

-- The five tests of parseUuid pass on the text of 16 bytes.
abbrev IsDashed : List ℕ → Type 0
IsDashed text =
    (length text ≡ 36)
    × (lacks_dash text 8 ≡ false)
    × (lacks_dash text 13 ≡ false)
    × (lacks_dash text 18 ≡ false)
    × (lacks_dash text 23 ≡ false)

format_from-IsDashed : (bs : List ℕ) → length bs ≡ 16 → IsDashed (format_from 0 bs)
unfolding format_from format_byte lacks_dash
format_from-IsDashed bs e =
    subst (λ t. IsDashed (format_from 0 t)) (sym (eq_tabulate 16 bs 0 e))
      (refl, refl, refl, refl, refl)

-- parseUuid reads the UUID back that formatUuid printed, whatever stands behind the text.
pub parse_uuid-format_uuid :
    (past : ℕ) (u : Uuid) → IsUuid u → parse_uuid past (format_uuid u) ≡ some u
unfolding parse_uuid format_uuid
parse_uuid-format_uuid past u v =
    let shape = format_from-IsDashed u.bytes v.0 in
    let read : parse_pairs past (replicate 16 0) 0 (format_from 0 u.bytes) ≡ some u.bytes =
      subst (λ n. parse_pairs past (replicate n 0) 0 (format_from 0 u.bytes) ≡ some u.bytes) v.0
        (parse_pairs-format_from past 0 [] u.bytes v.1) in
    rw (shape.0, shape.1, shape.2, shape.3, shape.4, read) refl
