-- ===== src/Server/Throttling/Locks/Progress.antt =====
-- No deadlock among concurrent calls.
use deadhorse.Common.{
  Bool-cases, List, [], arith, false, get_elem?, inl, inr, length, length-append, refl, set, some,
  suc, true, zero, ℕ, ◌*◌, ◌+◌, ◌<◌, ◌∷◌, ◌≡◌, ◌≤◌, ◌⊎◌,
}
use deadhorse.Server.Throttling.Locks.{
  Caller, LockStep, LockSteps, count, holds, is_free, lock, lock_next, none_yet, then, unlock,
  unlock_next,
}
use deadhorse.Server.Throttling.Locks.Order.{InOrder, LockSteps-InOrder, Rising, Rising-held}

-- All calls are done, or one can go on.
abbrev pub AllDone : List Caller → Type 0
AllDone cs = (i : ℕ) (c : Caller) → get_elem? cs i ≡ some c → (c.wanted ≡ []) × (c.held ≡ [])

abbrev pub CanStep : List Caller → Type 0
CanStep cs = (ds : List Caller) × LockStep cs ds

-- The steps that the calls have left.
abbrev pub work : List Caller → ℕ
work [] = 0
work (c ∷ cs) = 2 * length c.wanted + length c.held + work cs

work-set :
    (cs : List Caller) (i : ℕ) (c c' : Caller)
    → get_elem? cs i ≡ some c
    → 2 * length c'.wanted + length c'.held + 1 ≡ 2 * length c.wanted + length c.held
    → work (set cs i c') + 1 ≡ work cs
work-set [] i c c' at less = cc
work-set (d ∷ cs) zero c c' at less = let same : d ≡ c = cc in rw same (omega arith)
work-set (d ∷ cs) (suc i) c c' at less = omega (arith, work-set cs i c c' at less)

step-work : {cs ds : List Caller} → LockStep cs ds → work ds + 1 ≡ work cs
step-work {cs} (lock i b rest c at e f) =
    work-set cs i c (lock_next b rest c) at (rw e (omega (arith, length-append c.held (b ∷ []))))
step-work {cs} (unlock i b rest c at e f) =
    work-set cs i c (unlock_next rest c) at (rw f (omega arith))

steps-work : {cs ds : List Caller} (steps : LockSteps cs ds) → count steps + work ds ≡ work cs
steps-work none_yet = omega arith
steps-work (then steps st) = omega (arith, steps-work steps, step-work st)

holds-nil : (b : ℕ) (xs : List ℕ) → holds b xs ≡ true → (x : ℕ) × (rest : List ℕ) × (xs ≡ x ∷ rest)
holds-nil b [] h = cc
holds-nil b (x ∷ xs) h = (x, xs, refl)

-- Some call holds a bucket that is not free.
found :
    (b : ℕ) (cs : List Caller)
    → is_free b cs ≡ false
    → (i : ℕ) × (c : Caller) × (get_elem? cs i ≡ some c) × (holds b c.held ≡ true)
found b [] e = cc
found b (c ∷ cs) e = elim (Bool-cases (holds b c.held)) [
  | inl held ↦ (0, c, refl, held)
  | inr free ↦ let (i, d, at, held) = found b cs (rw free at e) in (suc i, d, at, held)
]

-- A call waits for a bucket, or has locked all that it wants and not given them up.
abbrev IsBusy : Caller → Type 0
IsBusy c =
    ((b : ℕ) × (rest : List ℕ) × (c.wanted ≡ b ∷ rest))
    ⊎ ((c.wanted ≡ []) × ((b : ℕ) × (rest : List ℕ) × (c.held ≡ b ∷ rest)))

idle_or_waiting : (c : Caller) → ((c.wanted ≡ []) × (c.held ≡ [])) ⊎ IsBusy c
idle_or_waiting c = by_fields c.wanted c.held refl refl
  where
    by_fields :
        (xs ys : List ℕ)
        → c.wanted ≡ xs
        → c.held ≡ ys
        → ((c.wanted ≡ []) × (c.held ≡ [])) ⊎ IsBusy c
    by_fields (b ∷ rest) ys e f = inr (inl (b, rest, e))
    by_fields [] (b ∷ rest) e f = inr (inr (e, (b, rest, f)))
    by_fields [] [] e f = inl (e, f)

search_calls :
    (cs : List Caller)
    → AllDone cs ⊎ ((i : ℕ) × (c : Caller) × (get_elem? cs i ≡ some c) × IsBusy c)
search_calls [] = inl (λ i c at. cc)
search_calls (d ∷ cs) = elim (idle_or_waiting d) [
  | inr busy ↦ inr (0, d, refl, busy)
  | inl done ↦ elim (search_calls cs) [
    | inr (i, c, at, busy) ↦ inr (suc i, c, at, busy)
    | inl all ↦ inl (both done all)
  ]
]
  where
    both : (d.wanted ≡ []) × (d.held ≡ []) → AllDone cs → AllDone (d ∷ cs)
    both done all zero c at = let same : d ≡ c = cc in rw (← same) done
    both done all (suc i) c at = all i c at

module _ (key_of : ℕ → ℕ) where
  -- A bound on the keys that calls wait for.
  total : List ℕ → ℕ
  total [] = 0
  total (b ∷ bs) = key_of b + total bs

  bound : List Caller → ℕ
  bound [] = 0
  bound (c ∷ cs) = total c.wanted + bound cs

  le-bound :
      (cs : List Caller) (i : ℕ) (c : Caller) (b : ℕ) (rest : List ℕ)
      → get_elem? cs i ≡ some c
      → c.wanted ≡ b ∷ rest
      → key_of b ≤ bound cs
  unfolding bound total
  le-bound [] i c b rest at e = cc
  le-bound (d ∷ cs) zero c b rest at e = let same : d ≡ c = cc in rw (same, e) (omega arith)
  le-bound (d ∷ cs) (suc i) c b rest at e = omega (arith, le-bound cs i c b rest at e)

  -- From a call that waits to the one that it waits for, to a greater key.
  descend :
      (cs : List Caller)
      → InOrder key_of cs
      → (fuel i b : ℕ) (rest : List ℕ) (c : Caller) → get_elem? cs i ≡ some c
      → c.wanted ≡ b ∷ rest
      → bound cs < key_of b + fuel
      → CanStep cs
  descend cs o zero i b rest c at e enough = absurd (omega (arith, le-bound cs i c b rest at e))
  descend cs o (suc fuel) i b rest c at e enough = elim (Bool-cases (is_free b cs)) [
    | inl free ↦ (_, lock i b rest c at e free)
    | inr taken ↦
        let (j, d, at', held) = found b cs taken in
        by_wanted j d at' held d.wanted refl (λ b' rest' f.
          descend cs o fuel j b' rest' d at' f
            (omega (arith, Rising-held key_of d.held b b' rest' (rw f at (o.rising j d at')) held)))
  ]
    where
      by_wanted :
          (j : ℕ) (d : Caller)
          → get_elem? cs j ≡ some d
          → holds b d.held ≡ true
          → (wanted : List ℕ) → d.wanted ≡ wanted
          → ((b' : ℕ) (rest' : List ℕ) → d.wanted ≡ b' ∷ rest' → CanStep cs)
          → CanStep cs
      by_wanted j d at' held [] f next_one =
          let (x, rest', g) = holds-nil b d.held held in (_, unlock j x rest' d at' f g)
      by_wanted j d at' held (b' ∷ rest') f next_one = next_one b' rest' f

  goes_on : (cs : List Caller) → InOrder key_of cs → AllDone cs ⊎ CanStep cs
  goes_on cs o = elim (search_calls cs) [
    | inl done ↦ inl done
    | inr (i, c, at, inl (b, rest, e)) ↦
        inr (descend cs o (suc (bound cs)) i b rest c at e (omega arith))
    | inr (i, c, at, inr (e, (b, rest, f))) ↦ inr (_, unlock i b rest c at e f)
  ]

  -- Concurrent calls that each lock their buckets in the order of the keys, with no key twice, never
  -- deadlock, whatever keys they share and however their steps interleave: at every moment all are
  -- done, or some call can take its next step; the steps taken and those left are together two for
  -- each lock to take; and at no moment do two calls hold the lock of the same bucket.
  pub calls_complete :
      (cs ds : List Caller)
      → ((i : ℕ) (c : Caller) → get_elem? cs i ≡ some c → (c.held ≡ []) × Rising key_of c.wanted)
      → (steps : LockSteps cs ds)
      → (AllDone ds ⊎ CanStep ds)
        × (count steps + work ds ≡ work cs)
        × ((i j : ℕ) (c d : Caller) (b : ℕ)
            → get_elem? ds i ≡ some c
            → get_elem? ds j ≡ some d
            → holds b c.held ≡ true
            → holds b d.held ≡ true
            → i ≡ j)
  calls_complete cs ds start steps =
      let o = LockSteps-InOrder key_of steps at_start in (goes_on ds o, steps-work steps, o.alone)
    where
      at_start : InOrder key_of cs
      at_start = record {
        rising = λ i c at. rw ((start i c at).0) (start i c at).1;
        alone = λ i j c d b at at' h. let q = rw ((start i c at).0) at h in cc;
      }
