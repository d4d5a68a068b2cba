-- ===== src/Types.antt =====
-- types.go: the request and response vocabulary, and the two normalising functions.
use deadhorse.Common.{Bool, Option, [], false, if◌then◌else◌, none, ℕ}
use deadhorse.Common.Assoc.{Str}
use deadhorse.Common.Int.{is_nonpos, pos, ℤ}

pub record Rate : Type 0 where
  pub units : ℤ
  pub period : ℤ

pub record Limit : Type 0 where
  pub capacity : ℤ
  pub rate : Rate

pub record RequestEntry : Type 0 where
  pub key : Str
  pub limit : Limit
  pub cost : ℤ
  pub peek : Bool

-- The errors that a response can carry.
pub data Failure : Type 0 where
  invalid_key : Failure
  entry_rejected : Failure
  circuit_open : Failure
  conn_closed : Failure
  exchange_failed : ℕ → Failure
  context_ended : ℕ → Failure

pub record ResponseEntry : Type 0 where
  pub key : Str
  pub throttled : Bool
  pub remaining : ℤ
  pub retry_after : ℤ
  pub err : Option Failure

unfoldable pub effective_cost : ℤ → ℤ
effective_cost cost = if is_nonpos cost then pos 1 else cost

unfoldable pub effective_units : ℤ → ℤ
effective_units units = if is_nonpos units then pos 1 else units

-- The zero values of the two entry types.
abbrev pub blank_entry : RequestEntry
blank_entry = record {
  key = [];
  limit = record { capacity = pos 0; rate = record { units = pos 0; period = pos 0 } };
  cost = pos 0;
  peek = false;
}

abbrev pub blank_response : ResponseEntry
blank_response = record {
  key = [];
  throttled = false;
  remaining = pos 0;
  retry_after = pos 0;
  err = none;
}
