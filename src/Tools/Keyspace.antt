-- ===== src/Tools/Keyspace.antt =====
-- tools/keyspace/main.go: the keys that each worker asks for, and what is read of a server's STATS.
pub mod Sweep
pub mod Count
use deadhorse.Common.{List, Option, [], if◌then◌else◌, none, suc, zero, ℕ, ◌++◌, ◌>>=◌, ◌∷◌}
use deadhorse.Common.Int.{add64, ltb_ℤ, pos, ℤ}
use deadhorse.Common.Assoc.{Str, str_eq}
use deadhorse.Wire.Decimal.{parse_int}
use deadhorse.Wire.Words.{fields}
use deadhorse.Server.Text.Dispatch.{stats_text}

-- The indices of one sweep of `runWorker`: from an index on, in steps of the number of workers, below
-- the number of keys. The index is an `int`, which wraps around.
unfoldable pub sweep_from : (fuel : ℕ) → (index concurrency num_keys : ℤ) → List ℤ
sweep_from zero index concurrency num_keys = []
sweep_from (suc fuel) index concurrency num_keys =
    let rest = sweep_from fuel (add64 index concurrency) concurrency num_keys in
    if ltb_ℤ index num_keys then index ∷ rest else []

-- As many rounds as there are keys are enough, if the index does not wrap around.
abbrev pub sweep : (worker concurrency num_keys : ℕ) → List ℤ
sweep worker concurrency num_keys =
    sweep_from num_keys (pos worker) (pos concurrency) (pos num_keys)

-- The line that `fetchKeyCount` writes.
abbrev pub stats_line : Str
stats_line = stats_text ++ 10 ∷ []

-- The third of three words, behind `STATS`.
abbrev pub count_of : List Str → Option ℤ
count_of (w ∷ _ ∷ keys ∷ []) = if str_eq w stats_text then parse_int keys else none
count_of _ = none

-- `fetchKeyCount`, with what the server writes back for a line, if it can be reached and answers.
unfoldable pub fetch_key_count : (Str → Option Str) → Option ℤ
fetch_key_count exchange = exchange stats_line >>= (λ line. count_of (fields line))
