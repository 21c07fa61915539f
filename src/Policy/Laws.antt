-- ===== src/Policy/Laws.antt =====
-- What `decide_policy` of src/mr_hide/policy.py promises.
use mr_hide.Prelude.{◌≡◌, refl, ◌≢◌, ◌↔◌, true, none, some, arith}
use mr_hide.Policy.{
  SubstitutionMode, alias, compatibility, ToolPolicy, default, safe_tool_calls, tool_compatibility,
  Direction, to_provider, to_local, ContentKind, conversation, protect, restore_known, pass_through,
  tool_data_unprotected, same_mode, mode_of, decide_policy,
}

-- Text leaves for the provider unprotected exactly when it is tool data under the default policy,
-- and then, and only then, the decision carries the warning `tool-data-unprotected`; text on its
-- way to the client is always restored.
pub decide_policy_lem :
    (policy : ToolPolicy) (direction : Direction) (kind : ContentKind)
    → (((decide_policy policy direction kind).action ≡ pass_through)
        ↔ ((policy ≡ default) × (direction ≡ to_provider) × (kind ≢ conversation)))
      × (((decide_policy policy direction kind).warning_code ≡ some tool_data_unprotected)
          ↔ ((decide_policy policy direction kind).action ≡ pass_through))
      × (((decide_policy policy direction kind).action ≡ restore_known) ↔ (direction ≡ to_local))
unfolding decide_policy
decide_policy_lem policy direction kind = ground arith

-- The mode of substitution depends on the policy alone, so the text of a conversation is always
-- transformed in one mode.
pub substitution_mode-decide_policy :
    (policy : ToolPolicy) (d e : Direction) (k l : ContentKind)
    → (decide_policy policy d k).substitution_mode ≡ (decide_policy policy e l).substitution_mode
unfolding decide_policy
substitution_mode-decide_policy policy d e k l = ground arith

-- Text of a conversation is protected on its way to the provider.
pub decide_policy-conversation :
    (policy : ToolPolicy)
    → decide_policy policy to_provider conversation
      ≡ record { action = protect; substitution_mode = mode_of policy; warning_code = none }
unfolding decide_policy
decide_policy-conversation default = refl
decide_policy-conversation safe_tool_calls = refl
decide_policy-conversation tool_compatibility = refl

pub same_mode-eq : (a b : SubstitutionMode) → same_mode a b ≡ true → a ≡ b
same_mode-eq alias alias h = refl
same_mode-eq compatibility compatibility h = refl
same_mode-eq alias compatibility h = cc
same_mode-eq compatibility alias h = cc
