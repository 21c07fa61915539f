-- ===== src/Policy/Examples.antt =====
-- The theorems about src/mr_hide/policy.py at concrete arguments.
use mr_hide.Policy.{
  default, to_provider, to_local, conversation, tool_result, restore_known, pass_through,
  tool_data_unprotected, decide_policy,
}
use mr_hide.Policy.Laws.{decide_policy_lem}
use mr_hide.Prelude.{◌≡◌, ◌≢◌, ◌↔◌, some}

decide_policy_lem_example :
    (((decide_policy default to_provider tool_result).action ≡ pass_through)
      ↔ ((default ≡ default) × (to_provider ≡ to_provider) × (tool_result ≢ conversation)))
    × (((decide_policy default to_provider tool_result).warning_code ≡ some tool_data_unprotected)
        ↔ ((decide_policy default to_provider tool_result).action ≡ pass_through))
    × (((decide_policy default to_provider tool_result).action ≡ restore_known)
        ↔ (to_provider ≡ to_local))
decide_policy_lem_example = decide_policy_lem default to_provider tool_result
