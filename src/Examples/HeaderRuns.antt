-- ===== src/Examples/HeaderRuns.antt =====
-- The theorem on scripts/gen_config_header.py at the small configuration.
use split_inference.Base.{List, [], ◌∷◌, ◌++◌, nat_eq, string_eq, pair_eq}
use split_inference.Header.Defines.{Define, Sizes, number, cut_number, tensor_bytes, fixed_defines}
use split_inference.Examples.Setup.{cfg}

abbrev sizes : Sizes
sizes = ("k_shallow", 9216) ∷ ("k_deep", 2304) ∷ []

abbrev lines : List Define
lines =
    fixed_defines cfg
    ++ (cut_number "k0" 0
        ∷ cut_number "k_shallow" 1
        ∷ tensor_bytes 1 9216
        ∷ cut_number "k_deep" 2
        ∷ tensor_bytes 2 2304
        ∷ [])
    ++ (number "FLEET_MAX_TENSOR_BYTES" 9216 ∷ number "FLEET_T_MAX_MS" 2000 ∷ [])
