-- ===== src/Tools/Weights.antt =====
-- tools/loadtest/main.go: the weight of a key, and the choice of the next key. `rand.IntN` is a list of
-- what it returns: for each try an index of a key, and a number below the greatest weight.
use Prim.Native.Nat.{bit_xor}
use native.Mathlib.Nat.{mod-lt}
use deadhorse.Common.{
  Bool-cases, List, Option, [], arith, get_elem?, if◌then◌else◌, inl, inr, leb, ltb, none, refl,
  some, suc, ℕ, ◌%◌, ◌*◌, ◌+◌, ◌-◌, ◌/◌, ◌<◌, ◌^◌, ◌∷◌, ◌≡◌, ◌≤◌,
}

abbrev pub xor_shift : ℕ → ℕ
xor_shift x = bit_xor x (x / 2 ^ 33)

-- `mix64`, with the wrap-around of its products.
unfoldable pub mix64 : ℕ → ℕ
mix64 x =
    let y = xor_shift x * 0xff51afd7ed558ccd % 2 ^ 64 in
    let z = xor_shift y * 0xc4ceb9fe1a85ec53 % 2 ^ 64 in xor_shift z

-- `keyWeight`, with weights that are not negative, as `main` checks.
unfoldable pub key_weight : (index min_weight max_weight seed : ℕ) → ℕ
unfolding mix64
key_weight index min_weight max_weight seed =
    if leb max_weight min_weight
    then min_weight
    else min_weight + mix64 (bit_xor index seed) % (max_weight - min_weight + 1)

unfoldable pub pick_key : (min_weight max_weight seed : ℕ) → List (ℕ × ℕ) → Option ℕ
pick_key min_weight max_weight seed [] = none
pick_key min_weight max_weight seed ((index, draw) ∷ draws) =
    let rest = pick_key min_weight max_weight seed draws in
    if ltb draw (key_weight index min_weight max_weight seed) then some index else rest

-- The weight of every key lies between the two weights.
pub key_weight-bounds :
    (index min_weight max_weight seed : ℕ)
    → min_weight ≤ max_weight
    → (min_weight ≤ key_weight index min_weight max_weight seed)
      × (key_weight index min_weight max_weight seed ≤ max_weight)
unfolding key_weight
key_weight-bounds index min_weight max_weight seed h =
    by_mix (mix64 (bit_xor index seed) % (max_weight - min_weight + 1))
      (mod-lt (mix64 (bit_xor index seed)) (omega arith))
  where
    by_mix :
        (x : ℕ)
        → x < max_weight - min_weight + 1
        → (min_weight ≤ (if leb max_weight min_weight then min_weight else min_weight + x))
          × ((if leb max_weight min_weight then min_weight else min_weight + x) ≤ max_weight)
    by_mix x lt = (ground arith, ground arith)

-- A key that is picked was drawn, and its weight is positive: with the lesser weight 0, a key of
-- weight 0 is never picked.
pub pick_key-drawn :
    (min_weight max_weight seed : ℕ) (draws : List (ℕ × ℕ)) (index : ℕ)
    → pick_key min_weight max_weight seed draws ≡ some index
    → (0 < key_weight index min_weight max_weight seed)
      × ((i : ℕ) × (draw : ℕ) × (get_elem? draws i ≡ some (index, draw)))
unfolding pick_key
pick_key-drawn min_weight max_weight seed [] index h = cc
pick_key-drawn min_weight max_weight seed ((j, draw) ∷ draws) index h =
    elim (Bool-cases (ltb draw (key_weight j min_weight max_weight seed))) [
      | inl e ↦
          let picked : some j ≡ some index = rw e at h in
          let same : j ≡ index = cc in rw (← same) (ground arith, (0, draw, refl))
      | inr e ↦
          let (positive, (i, d, at)) =
            pick_key-drawn min_weight max_weight seed draws index (rw e at h) in
          (positive, (suc i, d, at))
    ]
