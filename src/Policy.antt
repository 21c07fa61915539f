-- ===== src/Policy.antt =====
-- src/mr_hide/policy.py, with `SubstitutionMode` of src/mr_hide/privacy/mapping.py. The tests that
-- the arguments are members of their enumerations hold by typing.
pub mod Laws
mod Examples
use mr_hide.Prelude.{Bool, true, false, Option, none, some}

pub data SubstitutionMode : Type 0 where
  alias compatibility : SubstitutionMode

pub data ToolPolicy : Type 0 where
  default safe_tool_calls tool_compatibility : ToolPolicy

pub data Direction : Type 0 where
  to_provider to_local : Direction

pub data ContentKind : Type 0 where
  conversation tool_definition tool_argument tool_result tool_history : ContentKind

pub data PolicyAction : Type 0 where
  protect restore_known pass_through : PolicyAction

pub data WarningCode : Type 0 where
  tool_data_unprotected conversation_bypass_active : WarningCode

pub record PolicyDecision : Type 0 where
  pub action : PolicyAction
  pub substitution_mode : SubstitutionMode
  pub warning_code : Option WarningCode

-- `a is b` on modes
abbrev pub same_mode : SubstitutionMode → SubstitutionMode → Bool
same_mode alias alias = true
same_mode compatibility compatibility = true
same_mode _ _ = false

unfoldable pub mode_of : ToolPolicy → SubstitutionMode
mode_of tool_compatibility = compatibility
mode_of _ = alias

outgoing : ToolPolicy → ContentKind → PolicyDecision
unfolding mode_of
outgoing policy conversation = record {
  action = protect;
  substitution_mode = mode_of policy;
  warning_code = none;
}
outgoing default kind = record {
  action = pass_through;
  substitution_mode = mode_of default;
  warning_code = some tool_data_unprotected;
}
outgoing policy kind = record {
  action = protect;
  substitution_mode = mode_of policy;
  warning_code = none;
}

unfoldable pub decide_policy : ToolPolicy → Direction → ContentKind → PolicyDecision
unfolding outgoing
decide_policy policy to_local kind = record {
  action = restore_known;
  substitution_mode = mode_of policy;
  warning_code = none;
}
decide_policy policy to_provider kind = outgoing policy kind
