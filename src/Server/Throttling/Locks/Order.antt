-- ===== src/Server/Throttling/Locks/Order.antt =====
-- The order in which locks are held, and who holds them.
use deadhorse.Common.{
  ==_iff, Bool-cases, List, [], append_assoc, arith, false, get_elem?, get_elem?-set_cases, inl,
  inr, refl, set, some, suc, sym, true, zero, ℕ, ◌++◌, ◌<◌, ◌==◌, ◌∙◌, ◌∷◌, ◌≡◌, ◌⊎◌,
}
use deadhorse.Server.Throttling.Locks.{
  Caller, LockStep, LockSteps, holds, is_free, lock, lock_next, none_yet, then, unlock, unlock_next,
}

module _ (key_of : ℕ → ℕ) where
  -- The keys of the buckets rise.
  abbrev pub AllAbove : ℕ → List ℕ → Type 0
  AllAbove b [] = Unit
  AllAbove b (x ∷ xs) = (key_of b < key_of x) × AllAbove b xs

  abbrev pub Rising : List ℕ → Type 0
  Rising [] = Unit
  Rising (x ∷ xs) = AllAbove x xs × Rising xs

  pub record InOrder (cs : List Caller) : Type 0 where
    pub rising : (i : ℕ) (c : Caller) → get_elem? cs i ≡ some c → Rising (c.held ++ c.wanted)
    pub alone :
        (i j : ℕ) (c d : Caller) (b : ℕ)
        → get_elem? cs i ≡ some c
        → get_elem? cs j ≡ some d
        → holds b c.held ≡ true
        → holds b d.held ≡ true
        → i ≡ j

  AllAbove-middle :
      (b : ℕ) (xs : List ℕ) (x : ℕ) (ys : List ℕ) → AllAbove b (xs ++ x ∷ ys) → key_of b < key_of x
  AllAbove-middle b [] x ys h = h.0
  AllAbove-middle b (a ∷ xs) x ys h = AllAbove-middle b xs x ys h.1

  -- A bucket that a call holds comes before one that it waits for.
  pub Rising-held :
      (held : List ℕ) (b x : ℕ) (rest : List ℕ)
      → Rising (held ++ x ∷ rest)
      → holds b held ≡ true
      → key_of b < key_of x
  Rising-held [] b x rest h e = cc
  Rising-held (a ∷ held) b x rest (above, rising) e = elim (Bool-cases (a == b)) [
    | inl same ↦ rw (← (==_iff a b).0 same) (AllAbove-middle a held x rest above)
    | inr other ↦ Rising-held held b x rest rising (rw other at e)
  ]

  is_free-holds :
      (cs : List Caller) (b i : ℕ) (c : Caller)
      → is_free b cs ≡ true
      → get_elem? cs i ≡ some c
      → holds b c.held ≡ false
  is_free-holds [] b i c f at = cc
  is_free-holds (d ∷ cs) b zero c f at = let same : d ≡ c = cc in rw (← same) (ground arith)
  is_free-holds (d ∷ cs) b (suc i) c f at = is_free-holds cs b i c (ground arith) at

  holds-append :
      (b : ℕ) (xs : List ℕ) (x : ℕ) → holds b (xs ++ x ∷ []) ≡ true → (holds b xs ≡ true) ⊎ (x ≡ b)
  holds-append b [] x h = inr ((==_iff x b).0 (ground arith))
  holds-append b (a ∷ xs) x h = elim (Bool-cases (a == b)) [
    | inl e ↦ inl (rw e refl)
    | inr e ↦ rw e (holds-append b xs x (rw e at h))
  ]

  -- A call locks a bucket that is free, or unlocks one.
  set-InOrder :
      (cs : List Caller) (i : ℕ) (c c' : Caller)
      → get_elem? cs i ≡ some c
      → Rising (c'.held ++ c'.wanted)
      → ((b j : ℕ) (d : Caller)
          → get_elem? cs j ≡ some d
          → holds b c'.held ≡ true
          → holds b d.held ≡ true
          → i ≡ j)
      → InOrder cs
      → InOrder (set cs i c')
  set-InOrder cs i c c' at rising new o = record {
    rising = λ j d e. elim (get_elem?-set_cases cs i j c' d e) [
      | inl (_, same) ↦ rw same rising
      | inr (_, old) ↦ o.rising j d old
    ];
    alone = λ j k d f b e e' h h'. elim (get_elem?-set_cases cs i j c' d e) [
      | inl (is_j, same) ↦ elim (get_elem?-set_cases cs i k c' f e') [
        | inl (is_k, _) ↦ sym is_j ∙ is_k
        | inr (_, old) ↦ sym is_j ∙ new b k f old (rw same at h) h'
      ]
      | inr (_, old) ↦ elim (get_elem?-set_cases cs i k c' f e') [
        | inl (is_k, same) ↦ sym (new b j d old (rw same at h') h) ∙ is_k
        | inr (_, old') ↦ o.alone j k d f b old old' h h'
      ]
    ];
  }

  pub LockStep-InOrder : {cs ds : List Caller} → LockStep cs ds → InOrder cs → InOrder ds
  LockStep-InOrder {cs} (lock i b rest c at e f) o =
      set-InOrder cs i c (lock_next b rest c) at
        (rw (append_assoc c.held (b ∷ []) rest) (rw e at (o.rising i c at)))
        (λ x j d at' h h'. elim (holds-append x c.held b h) [
          | inl held ↦ o.alone i j c d x at at' held h'
          | inr same ↦ let taken = is_free-holds cs b j d f at' in let q = rw (← same) at h' in cc
        ])
        o
  LockStep-InOrder {cs} (unlock i b rest c at e f) o =
      set-InOrder cs i c (unlock_next rest c) at (rw f at (o.rising i c at)).1
        (λ x j d at' h h'. o.alone i j c d x at at' (rw f (ground arith)) h') o

  pub LockSteps-InOrder : {cs ds : List Caller} → LockSteps cs ds → InOrder cs → InOrder ds
  LockSteps-InOrder none_yet o = o
  LockSteps-InOrder (then steps st) o = LockStep-InOrder st (LockSteps-InOrder steps o)
