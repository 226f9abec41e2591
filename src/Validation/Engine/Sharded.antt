-- ===== src/Validation/Engine/Sharded.antt =====
-- The sharded run of the validator is the serial run.
use learn_arken.Prelude.{raise, String, ◌≡◌, List, Result, ok}
use learn_arken.Validation.Engine.{PackageError, shard_failed}

-- A worker's exception wraps the one that the serial run raises.
pub data IsWrapped : PackageError → PackageError → Type 0 where
  same : {e : PackageError} → IsWrapped e e
  in_shard : {files : List String} {e : PackageError} → IsWrapped (shard_failed files e) e

abbrev pub SameOutcome : {A : Type 0} → Result PackageError A → Result PackageError A → Type 0
SameOutcome (ok a) (ok b) = a ≡ b
SameOutcome (raise e) (raise e') = IsWrapped e e'
SameOutcome _ _ = ⊥
