-- ===== src/Examples/RegistryRuns.antt =====
-- The theorems on orchestrator/registry.py at concrete inputs.
use split_inference.Base.{nat_eq, string_eq, pair_eq}
