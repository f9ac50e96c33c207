-- ===== src/Genconfig/Identifier.antt =====
-- identifierIsValid of genconfig/genconfig.go, against what its pattern is meant to accept.
use opt.Base.{
  ℕ, zero, suc, ◌+◌, ◌≤◌, ◌≡◌, ◌↔◌, refl, ap, [], ◌∷◌, ◌++◌, Bool, true, false, ◌&&◌, ◌||◌, Bytes,
  All, length, leb, ◌==◌, Bool-cases, inl, inr, arith,
}

-- [a-z0-9] and [a-z0-9\-].
abbrev pub is_alnum : ℕ → Bool
is_alnum c = (leb b'a' c && leb c b'z') || (leb b'0' c && leb c b'9')

abbrev pub is_alnum_dash : ℕ → Bool
is_alnum_dash c = is_alnum c || c == b'-'

-- [a-z0-9]$
abbrev pub matches_end : Bytes → Bool
matches_end [] = false
matches_end (c ∷ []) = is_alnum c
matches_end (c ∷ d ∷ s) = false

-- [a-z0-9\-]{min,min+more}[a-z0-9]$, with the ways to repeat tried one after the other.
unfoldable pub matches_rest : ℕ → ℕ → Bytes → Bool
matches_rest (suc min) more [] = false
matches_rest (suc min) more (c ∷ s) = is_alnum_dash c && matches_rest min more s
matches_rest zero zero s = matches_end s
matches_rest zero (suc more) [] = false
matches_rest zero (suc more) (c ∷ s) =
    matches_end (c ∷ s) || (is_alnum_dash c && matches_rest zero more s)

-- ^[a-z0-9](?:[a-z0-9\-]{2,18}[a-z0-9])$
unfoldable pub identifier_is_valid : Bytes → Bool
unfolding matches_rest
identifier_is_valid [] = false
identifier_is_valid (c ∷ s) = is_alnum c && matches_rest 2 16 s

-- Characters of the class, and then a letter or a digit.
pub record Middle (min max : ℕ) (s : Bytes) : Type 0 where
  pub front : Bytes
  pub last : ℕ
  pub is : s ≡ front ++ (last ∷ [])
  pub classed : All (λ c. is_alnum_dash c ≡ true) front
  pub ends : is_alnum last ≡ true
  pub least : min ≤ length front
  pub most : length front ≤ max

Middle-of_matches :
    (min more : ℕ) (s : Bytes) → matches_rest min more s ≡ true → Middle min (min + more) s
unfolding matches_rest
Middle-of_matches (suc min) more [] h = cc
Middle-of_matches (suc min) more (c ∷ s) h =
    let m = Middle-of_matches min more s (ground arith) in
    record {
      front = c ∷ m.front;
      last = m.last;
      is = ap (λ l. c ∷ l) m.is;
      classed = (ground arith, m.classed);
      ends = m.ends;
      least = omega (arith, m.least);
      most = omega (arith, m.most);
    }
Middle-of_matches zero zero [] h = cc
Middle-of_matches zero zero (c ∷ []) h = record {
  front = [];
  last = c;
  is = refl;
  classed = tt;
  ends = h;
  least = omega arith;
  most = omega arith;
}
Middle-of_matches zero zero (c ∷ d ∷ s) h = cc
Middle-of_matches zero (suc more) [] h = cc
Middle-of_matches zero (suc more) (c ∷ s) h = elim (Bool-cases (matches_end (c ∷ s))) [
  | inl e ↦ ending c s (suc more) e
  | inr e ↦
      let m = Middle-of_matches zero more s (ground arith) in
      record {
        front = c ∷ m.front;
        last = m.last;
        is = ap (λ l. c ∷ l) m.is;
        classed = (ground arith, m.classed);
        ends = m.ends;
        least = omega arith;
        most = omega (arith, m.most);
      }
]
  where
    ending :
        (c : ℕ) (s : Bytes) (most : ℕ) → matches_end (c ∷ s) ≡ true → Middle 0 (0 + most) (c ∷ s)
    ending c [] most e = record {
      front = [];
      last = c;
      is = refl;
      classed = tt;
      ends = e;
      least = omega arith;
      most = omega arith;
    }
    ending c (d ∷ s) most e = cc

matches-of_front :
    (min more : ℕ) (front : Bytes) (last : ℕ)
    → All (λ c. is_alnum_dash c ≡ true) front
    → is_alnum last ≡ true
    → min ≤ length front
    → length front ≤ min + more
    → matches_rest min more (front ++ (last ∷ [])) ≡ true
unfolding matches_rest
matches-of_front (suc min) more [] last a e l m = absurd (omega arith)
matches-of_front (suc min) more (c ∷ front) last a e l m =
    ground (arith, matches-of_front min more front last a.1 e (omega arith) (omega arith))
matches-of_front zero zero [] last a e l m = e
matches-of_front zero zero (c ∷ front) last a e l m = absurd (omega arith)
matches-of_front zero (suc more) [] last a e l m = ground arith
matches-of_front zero (suc more) (c ∷ front) last a e l m =
    ground (arith, matches-of_front zero more front last a.1 e (omega arith) (omega arith))

-- A letter or a digit, then 2 to 18 letters, digits or dashes, then a letter or a digit.
pub record IsIdentifier (s : Bytes) : Type 0 where
  pub first : ℕ
  pub rest : Bytes
  pub is : s ≡ first ∷ rest
  pub starts : is_alnum first ≡ true
  pub middle : Middle 2 18 rest

-- An identifier is valid exactly if it has 4 to 20 characters, which are lower-case letters, digits
-- or dashes, the first and the last no dash.
pub identifier_is_valid_iff : (s : Bytes) → (identifier_is_valid s ≡ true) ↔ IsIdentifier s
unfolding identifier_is_valid
identifier_is_valid_iff [] = ((λ h. cc), (λ i. absurd (ground (arith, i.is))))
identifier_is_valid_iff (c ∷ s) = (
  (λ h. record {
    first = c;
    rest = s;
    is = refl;
    starts = ground arith;
    middle = Middle-of_matches 2 16 s (ground arith);
  }),
  (λ i.
      let m = i.middle in
      ground (
        arith,
        i.is,
        i.starts,
        m.is,
        matches-of_front 2 16 m.front m.last m.classed m.ends m.least m.most,
      )),
)
