-- ===== src/Server/Throttling/Spec.antt =====
-- What a Throttle call promises, over an abstract state: the TAT of each key. No stripe, bucket,
-- generation, index or working copy is left.
use deadhorse.Common.{Bool, List, [], if◌then◌else◌, not, true, ℕ, ◌&&◌, ◌||◌, ◌∷◌}
use deadhorse.Common.Assoc.{Str, str_eq}
use deadhorse.Types.{RequestEntry, ResponseEntry}
use deadhorse.Server.Throttling.{check_entry, keyed, report}

abbrev pub State : Type 0
State = Str → ℕ

unfoldable pub update : Str → ℕ → State → State
update k tat s j = if str_eq k j then tat else s j

-- The state that an entry leaves to the entries behind it, were the call to commit.
unfoldable pub advance : ℕ → RequestEntry → State → State
advance now e s =
    let v = check_entry (s e.key) now e in
    if e.peek || v.throttled then s else update e.key v.admitted_tat s

unfoldable pub advance_all : ℕ → List RequestEntry → State → State
advance_all now [] s = s
advance_all now (e ∷ es) s = advance_all now es (advance now e s)

-- Every entry that is no peek passes its own check.
unfoldable pub admits : ℕ → List RequestEntry → State → Bool
admits now [] s = true
admits now (e ∷ es) s =
    (e.peek || not (check_entry (s e.key) now e).throttled) && admits now es (advance now e s)

-- Each entry's own check: a peek against the state before the call, the others in a chain.
unfoldable pub answers : ℕ → State → List RequestEntry → State → List ResponseEntry
answers now before [] s = []
answers now before (e ∷ es) s =
    report (check_entry (if e.peek then before e.key else s e.key) now e) (keyed e.key)
    ∷ answers now before es (advance now e s)

-- All or none.
unfoldable pub transact : ℕ → List RequestEntry → State → State
transact now es s = if admits now es s then advance_all now es s else s
