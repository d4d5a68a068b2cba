-- ===== src/Common/Order.antt =====
-- The order of Go's strings, and the place of a string among those of a list.
use deadhorse.Common.{
  Bool, Bool-cases, List, [], arith, false, if◌then◌else◌, inl, inr, ltb, refl, suc, true, ℕ, ◌&&◌,
  ◌<◌, ◌==◌, ◌||◌, ◌∷◌, ◌≡◌, ◌≤◌,
}
use deadhorse.Common.Assoc.{Str, str_eq, str_eq_iff}

-- `<` on strings.
unfoldable pub str_lt : Str → Str → Bool
str_lt [] [] = false
str_lt [] (y ∷ ys) = true
str_lt (x ∷ xs) [] = false
str_lt (x ∷ xs) (y ∷ ys) = ltb x y || (x == y && str_lt xs ys)

pub str_lt_irrefl : (xs : Str) → str_lt xs xs ≡ false
unfolding str_lt
str_lt_irrefl [] = refl
str_lt_irrefl (x ∷ xs) = ground (arith, str_lt_irrefl xs)

pub str_lt_trans :
    (xs ys zs : Str) → str_lt xs ys ≡ true → str_lt ys zs ≡ true → str_lt xs zs ≡ true
unfolding str_lt
str_lt_trans [] [] zs h k = cc
str_lt_trans [] (y ∷ ys) [] h k = cc
str_lt_trans [] (y ∷ ys) (z ∷ zs) h k = refl
str_lt_trans (x ∷ xs) [] zs h k = cc
str_lt_trans (x ∷ xs) (y ∷ ys) [] h k = cc
str_lt_trans (x ∷ xs) (y ∷ ys) (z ∷ zs) h k = ground (arith, str_lt_trans xs ys zs)

-- Two strings of which neither is before the other are the same.
pub str_lt_total : (xs ys : Str) → str_lt xs ys ≡ false → str_lt ys xs ≡ false → xs ≡ ys
unfolding str_lt
str_lt_total [] [] h k = refl
str_lt_total [] (y ∷ ys) h k = cc
str_lt_total (x ∷ xs) [] h k = cc
str_lt_total (x ∷ xs) (y ∷ ys) h k =
    let same : x ≡ y = ground arith in
    let rest = str_lt_total xs ys (ground arith) (ground arith) in cc

-- No later string is before an earlier one.
abbrev pub NoneBelow : Str → List Str → Type 0
NoneBelow x [] = Unit
NoneBelow x (y ∷ ys) = (str_lt y x ≡ false) × NoneBelow x ys

abbrev pub Ascending : List Str → Type 0
Ascending [] = Unit
Ascending (x ∷ xs) = NoneBelow x xs × Ascending xs

-- How often a string stands in a list.
abbrev pub times : Str → List Str → ℕ
times k [] = 0
times k (x ∷ xs) = if str_eq x k then suc (times k xs) else times k xs

-- How many strings of a list are before a string.
abbrev pub rank : Str → List Str → ℕ
rank k [] = 0
rank k (x ∷ xs) = if str_lt x k then suc (rank k xs) else rank k xs

rank-le : (j k : Str) (xs : List Str) → str_lt j k ≡ true → rank j xs ≤ rank k xs
rank-le j k [] h = omega arith
rank-le j k (x ∷ xs) h = ground (arith, rank-le j k xs h, str_lt_trans x j k)

pub rank-lt :
    (j k : Str) (xs : List Str) → str_lt j k ≡ true → 0 < times j xs → rank j xs < rank k xs
rank-lt j k [] h m = absurd (omega arith)
rank-lt j k (x ∷ xs) h m = elim (Bool-cases (str_eq x j)) [
  | inl same ↦
      let is_j = (str_eq_iff x j).0 same in
      let here : str_lt x j ≡ false = rw is_j (str_lt_irrefl j) in
      let there : str_lt x k ≡ true = rw is_j h in
      rw (here, there) (omega (arith, rank-le j k xs h))
  | inr other ↦
      let rest = rank-lt j k xs h (rw other at m) in ground (arith, rest, str_lt_trans x j k)
]
