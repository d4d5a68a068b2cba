-- ===== src/Server/Throttling/Range.antt =====
-- The TATs stay in the range of an int64 over a call.
use deadhorse.Common.{Bool-cases, List, [], inl, inr, none, ℕ, ◌||◌, ◌∷◌, ◌≤◌}
use deadhorse.Common.Int.{max_int64}
use deadhorse.Common.Assoc.{Str, str_eq}
use deadhorse.Types.{RequestEntry}
use deadhorse.Gcra.Range.{IsCount, gcra_check-range}
use deadhorse.Server.Store.{Store}
use deadhorse.Server.Store.Tats.{IsValid, tat_of}
use deadhorse.Server.Throttling.{check_entry, throttle}
use deadhorse.Server.Throttling.Spec.{State, admits, advance, advance_all, transact, update}
use deadhorse.Server.Throttling.Refines.{throttle-refines}

-- Every TAT is in the range of an int64.
abbrev pub InTime : State → Type 0
InTime s = (k : Str) → s k ≤ max_int64

-- No capacity is negative.
abbrev pub AllCapacities : List RequestEntry → Type 0
AllCapacities [] = Unit
AllCapacities (e ∷ es) = IsCount e.limit.capacity × AllCapacities es

module _ (now : ℕ) (hn : now ≤ max_int64) where
  pub check_entry-range :
      (tat : ℕ) (e : RequestEntry)
      → IsCount e.limit.capacity
      → tat ≤ max_int64
      → ((check_entry tat now e).admitted_tat ≤ max_int64)
        × IsCount (check_entry tat now e).remaining
        × IsCount (check_entry tat now e).retry_after
  unfolding check_entry
  check_entry-range tat e hc ht =
      gcra_check-range tat now e.limit.capacity _ e.limit.rate.period _ hc ht hn

  update-InTime :
      (k : Str) (tat : ℕ) (s : State) → tat ≤ max_int64 → InTime s → InTime (update k tat s)
  unfolding update
  update-InTime k tat s h hs j = elim (Bool-cases (str_eq k j)) [
    | inl same ↦ rw same h
    | inr apart ↦ rw apart (hs j)
  ]

  pub advance-InTime :
      (e : RequestEntry) (s : State)
      → IsCount e.limit.capacity
      → InTime s
      → InTime (advance now e s)
  unfolding advance
  advance-InTime e s hc hs = elim (Bool-cases (e.peek || (check_entry (s e.key) now e).throttled)) [
    | inl same ↦ simp same hs
    | inr changed ↦ simp changed (
        update-InTime e.key (check_entry (s e.key) now e).admitted_tat s
          (check_entry-range (s e.key) e hc (hs e.key)).0 hs)
  ]

  advance_all-InTime :
      (es : List RequestEntry) (s : State)
      → AllCapacities es
      → InTime s
      → InTime (advance_all now es s)
  unfolding advance_all
  advance_all-InTime [] s h hs = hs
  advance_all-InTime (e ∷ es) s (h, hes) hs =
      advance_all-InTime es (advance now e s) hes (advance-InTime e s h hs)

  -- Over a call whose capacities are not negative every TAT in the store stays in the range of an
  -- int64, whatever the rates and the costs, as long as the clock is in range.
  pub throttle-InTime :
      (es : List RequestEntry) (st : Store)
      → IsValid st
      → AllCapacities es
      → InTime (tat_of st)
      → InTime (tat_of (throttle none now es st).0)
  unfolding transact
  throttle-InTime es st v h hs k =
      let (_, tats, _, _) = throttle-refines now es st v in
      rw (tats k) (elim (Bool-cases (admits now es (tat_of st))) [
        | inl all ↦ simp all (advance_all-InTime es (tat_of st) h hs k)
        | inr not_all ↦ simp not_all (hs k)
      ])
