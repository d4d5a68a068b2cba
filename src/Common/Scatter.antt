-- ===== src/Common/Scatter.antt =====
-- Arrays filled through a list of indices: `for j, idx := range indices { arr[idx] = values[j] }`.
use Prim.Native.Nat.{ℕ, zero, suc, ◌+◌}
use mathlib.Core.Path.{◌≡◌, refl, ap, ◌∙◌}
use mathlib.Core.Bool.{Bool}
use mathlib.Core.Logic.{inl, inr}
use mathlib.Core.List.{List, [], ◌∷◌, ◌++◌, append_assoc}
use native.Mathlib.Omega.{arith}
use deadhorse.Common.Tests.{Bool-cases, if◌then◌else◌}
use deadhorse.Common.Lists.{length, length-append, set}

module _ {ℓ} {A : Type ℓ} where
  -- The indices, from `n` on, of the entries that pass a test.
  unfoldable pub positions : (A → Bool) → ℕ → List A → List ℕ
  positions p n [] = []
  positions p n (x ∷ xs) = let rest = positions p (n + 1) xs in if p x then n ∷ rest else rest

module _ {ℓ} {B : Type ℓ} where
  unfoldable pub scatter : List ℕ → List B → List B → List B
  scatter [] values arr = arr
  scatter (i ∷ is) [] arr = arr
  scatter (i ∷ is) (v ∷ values) arr = scatter is values (set arr i v)

  pub scatter-nil : (is : List ℕ) (arr : List B) → scatter is [] arr ≡ arr
  unfolding scatter
  scatter-nil [] arr = refl
  scatter-nil (i ∷ is) arr = refl

  pub set-middle :
      (pre : List B) (a v : B) (arr : List B) (n : ℕ)
      → length pre ≡ n
      → set (pre ++ a ∷ arr) n v ≡ pre ++ v ∷ arr
  set-middle [] a v arr zero h = refl
  set-middle [] a v arr (suc n) h = absurd (omega arith)
  set-middle (x ∷ pre) a v arr zero h = absurd (omega arith)
  set-middle (x ∷ pre) a v arr (suc n) h = ap (◌∷◌ x) (set-middle pre a v arr n (omega arith))

module _ {ℓ κ} {A : Type ℓ} {B : Type κ} where
  -- The same, walking both lists at once.
  unfoldable pub weave : (A → Bool) → List A → List B → List B → List B
  weave p [] values arr = arr
  weave p (x ∷ xs) values [] = []
  weave p (x ∷ xs) [] (a ∷ arr) = a ∷ arr
  weave p (x ∷ xs) (v ∷ values) (a ∷ arr) =
      if p x then v ∷ weave p xs values arr else a ∷ weave p xs (v ∷ values) arr

  scatter-weave_from :
      (p : A → Bool) (xs : List A) (n : ℕ) (values pre arr : List B)
      → length pre ≡ n
      → length arr ≡ length xs
      → scatter (positions p n xs) values (pre ++ arr) ≡ pre ++ weave p xs values arr
  unfolding positions scatter weave
  scatter-weave_from p [] n values pre [] hp ha = refl
  scatter-weave_from p [] n values pre (a ∷ arr) hp ha = absurd (omega arith)
  scatter-weave_from p (x ∷ xs) n values pre [] hp ha = absurd (omega arith)
  scatter-weave_from p (x ∷ xs) n [] pre (a ∷ arr) hp ha = scatter-nil (positions p n (x ∷ xs)) _
  scatter-weave_from p (x ∷ xs) n (v ∷ values) pre (a ∷ arr) hp ha = elim (Bool-cases (p x)) [
    | inl e ↦
        rw (e, scatter, set-middle pre a v arr n hp, ← append_assoc pre (v ∷ []) arr)
          (scatter-weave_from p xs (n + 1) values (pre ++ v ∷ []) arr
              (omega (arith, length-append pre (v ∷ []))) (omega arith)
            ∙ append_assoc pre (v ∷ []) (weave p xs values arr))
    | inr e ↦
        rw (e, ← append_assoc pre (a ∷ []) arr)
          (scatter-weave_from p xs (n + 1) (v ∷ values) (pre ++ a ∷ []) arr
              (omega (arith, length-append pre (a ∷ []))) (omega arith)
            ∙ append_assoc pre (a ∷ []) (weave p xs (v ∷ values) arr))
  ]

  -- Filling through the positions of the entries that pass a test is one walk over both lists.
  pub scatter-weave :
      (p : A → Bool) (xs : List A) (values arr : List B)
      → length arr ≡ length xs
      → scatter (positions p 0 xs) values arr ≡ weave p xs values arr
  scatter-weave p xs values arr h = scatter-weave_from p xs 0 values [] arr refl h
