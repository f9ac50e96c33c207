-- ===== src/Base/Texts.antt =====
-- Go's strings and byte slices as lists of bytes: literals, `strings.HasPrefix`, `strings.Contains`,
-- `strings.Split` by one byte, `strconv.Itoa` and `strconv.Atoi`.
use Prim.Native.Char.{code}
use Prim.Native.Nat.{ℕ, zero, suc, ◌+◌, ◌-◌, ◌*◌, ◌/◌, ◌%◌, ◌^◌, ◌≤◌}
use mathlib.Core.Logic.{inl, inr}
use Prim.Native.String.{String}
use mathlib.Core.Path.{◌≡◌, refl}
use mathlib.Core.Bool.{Bool, true, false, ◌&&◌, ◌||◌}
use mathlib.Core.Option.{Option, none, some}
use mathlib.Core.List.{List, [], ◌∷◌, ◌++◌}
use native.Mathlib.Omega.{arith}
use opt.Base.Tests.{leb, ◌==◌, if◌then◌else◌, Bool-cases}
use opt.Base.Lists.{Bytes}
use opt.Base.Int.{ℤ, pos, sub_ℕ}

-- The bytes of a literal.
abbrev pub bytes_of : String → Bytes
bytes_of String.[] = []
bytes_of (String.◌∷◌ c s) = code c ∷ bytes_of s

unfoldable pub has_prefix : Bytes → Bytes → Bool
has_prefix s [] = true
has_prefix [] (p ∷ ps) = false
has_prefix (c ∷ s) (p ∷ ps) = c == p && has_prefix s ps

unfoldable pub contains : Bytes → Bytes → Bool
contains [] p = has_prefix [] p
contains (c ∷ s) p = has_prefix (c ∷ s) p || contains s p

-- The first piece and the others.
unfoldable pub split_at : ℕ → Bytes → Bytes × List Bytes
split_at sep [] = ([], [])
split_at sep (c ∷ s) =
    let (piece, pieces) = split_at sep s in
    if c == sep then ([], piece ∷ pieces) else (c ∷ piece, pieces)

unfoldable pub split : ℕ → Bytes → List Bytes
unfolding split_at
split sep s = let (piece, pieces) = split_at sep s in piece ∷ pieces

-- The decimal digits of n, before those of `rest`, in at most `fuel` rounds.
digits_onto : ℕ → ℕ → Bytes → Bytes
digits_onto zero n rest = rest
digits_onto (suc fuel) n rest =
    let further = digits_onto fuel (n / 10) ((b'0' + n % 10) ∷ rest) in
    if n == 0 then rest else further

unfoldable pub itoa : ℕ → Bytes
unfolding digits_onto
itoa n = if n == 0 then b'0' ∷ [] else digits_onto n n []

digits_from : ℕ → Bytes → Option ℕ
digits_from acc [] = some acc
digits_from acc (c ∷ s) =
    let further = digits_from (acc * 10 + (c - b'0')) s in
    if leb b'0' c && leb c b'9' then further else none

digits : Bytes → Option ℕ
unfolding digits_from
digits [] = none
digits (c ∷ s) = digits_from 0 (c ∷ s)

-- An int of 64 bits: what is out of its range is an error.
unfoldable pub atoi : Bytes → Option ℤ
unfolding digits
atoi [] = none
atoi (c ∷ s) =
    if c == b'-'
    then elim (digits s) [
      | none ↦ none
      | some n ↦ if leb n (2 ^ 63) then some (sub_ℕ 0 n) else none
    ]
    else elim (digits (if c == b'+' then s else c ∷ s)) [
      | none ↦ none
      | some n ↦ if leb n (2 ^ 63 - 1) then some (pos n) else none
    ]

pub has_prefix-append : (p s : Bytes) → has_prefix (p ++ s) p ≡ true
unfolding has_prefix
has_prefix-append [] [] = refl
has_prefix-append [] (c ∷ s) = refl
has_prefix-append (c ∷ p) s = ground (arith, has_prefix-append p s)

-- What stands between two texts is contained in the whole.
pub contains-middle : (a p b : Bytes) → contains (a ++ (p ++ b)) p ≡ true
unfolding contains
contains-middle [] [] [] = ground (arith, has_prefix-append [] [])
contains-middle [] [] (c ∷ b) = ground (arith, has_prefix-append [] (c ∷ b))
contains-middle [] (c ∷ p) b = ground (arith, has_prefix-append (c ∷ p) b)
contains-middle (c ∷ a) p b = ground (arith, contains-middle a p b)

-- Fuel that is no less than the number gives all its digits.
digits_from-digits_onto :
    (fuel n : ℕ) (rest : Bytes)
    → n ≤ fuel
    → digits_from 0 (digits_onto fuel n rest) ≡ digits_from n rest
unfolding digits_from digits_onto
digits_from-digits_onto zero n rest h = ground arith
digits_from-digits_onto (suc fuel) n rest h = elim (Bool-cases (n == 0)) [
  | inl z ↦ ground arith
  | inr p ↦
      let step = digits_from-digits_onto fuel (n / 10) ((b'0' + n % 10) ∷ rest) (ground arith) in
      ground (arith, step)
]

-- What is printed is read back as the same number.
digits_from-itoa : (n : ℕ) → digits_from 0 (itoa n) ≡ some n
unfolding itoa digits_from
digits_from-itoa n = elim (Bool-cases (n == 0)) [
  | inl z ↦ ground arith
  | inr p ↦ ground (arith, digits_from-digits_onto n n [] (omega arith))
]
