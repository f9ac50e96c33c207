-- ===== src/Authority/Commits/SameKeys.antt =====
-- Maps with the same keys, as verifyCommits keeps its commits and its reveals.
use opt.Base.{
  ℕ, [], ◌∷◌, ◌≡◌, refl, arith, Bool, true, false, Bytes, Map, lookup, insert, delete, is_some,
  ◌==◌, Bool-cases, inl, inr, length, subst,
}

-- Two maps with their entries for the same keys, in the same order.
abbrev pub SameKeys : Map Bytes → Map Bytes → Type 0
SameKeys [] [] = Unit
SameKeys ((a, _) ∷ m) ((b, _) ∷ n) = (a ≡ b) × SameKeys m n
SameKeys _ _ = ⊥

same_test : (pk : ℕ) {a b : ℕ} → a ≡ b → (t : Bool) → (a == pk) ≡ t → (b == pk) ≡ t
same_test pk h t e = subst (λ c. (c == pk) ≡ t) h e

pub insert-SameKeys :
    (pk : ℕ) (v w : Bytes) (m n : Map Bytes)
    → SameKeys m n
    → SameKeys (insert pk v m) (insert pk w n)
unfolding insert
insert-SameKeys pk v w [] [] h = (refl, tt)
insert-SameKeys pk v w [] (y ∷ n) h = absurd h
insert-SameKeys pk v w (x ∷ m) [] h = absurd h
insert-SameKeys pk v w ((a, x) ∷ m) ((b, y) ∷ n) h = elim (Bool-cases (a == pk)) [
  | inl e ↦ rw (e, same_test pk h.0 true e) (refl, h.1)
  | inr e ↦ rw (e, same_test pk h.0 false e) (h.0, insert-SameKeys pk v w m n h.1)
]

pub delete-SameKeys :
    (pk : ℕ) (m n : Map Bytes) → SameKeys m n → SameKeys (delete pk m) (delete pk n)
unfolding delete
delete-SameKeys pk [] [] h = tt
delete-SameKeys pk [] (y ∷ n) h = absurd h
delete-SameKeys pk (x ∷ m) [] h = absurd h
delete-SameKeys pk ((a, x) ∷ m) ((b, y) ∷ n) h = elim (Bool-cases (a == pk)) [
  | inl e ↦ rw (e, same_test pk h.0 true e) (delete-SameKeys pk m n h.1)
  | inr e ↦ rw (e, same_test pk h.0 false e) (h.0, delete-SameKeys pk m n h.1)
]

pub lookup-SameKeys :
    (pk : ℕ) (m n : Map Bytes) → SameKeys m n → is_some (lookup pk m) ≡ is_some (lookup pk n)
unfolding lookup
lookup-SameKeys pk [] [] h = refl
lookup-SameKeys pk [] (y ∷ n) h = absurd h
lookup-SameKeys pk (x ∷ m) [] h = absurd h
lookup-SameKeys pk ((a, x) ∷ m) ((b, y) ∷ n) h = ground (arith, lookup-SameKeys pk m n h.1)

pub length-SameKeys : (m n : Map Bytes) → SameKeys m n → length m ≡ length n
length-SameKeys [] [] h = refl
length-SameKeys [] (y ∷ n) h = absurd h
length-SameKeys (x ∷ m) [] h = absurd h
length-SameKeys (x ∷ m) (y ∷ n) h = ground (arith, length-SameKeys m n h.1)
