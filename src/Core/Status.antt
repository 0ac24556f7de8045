-- ===== src/Core/Status.antt =====
-- The words that the program writes in a `status`: of a run, of a layer's result, of a strategy in
-- the log and of a collection item.
use mathlib.Core.Bool.{Bool, true, false}

pub data Status : Type 0 where
  pending running completed partial failed skipped : Status

abbrev pub status_eq : Status → Status → Bool
status_eq pending pending = true
status_eq running running = true
status_eq completed completed = true
status_eq partial partial = true
status_eq failed failed = true
status_eq skipped skipped = true
status_eq _ _ = false
