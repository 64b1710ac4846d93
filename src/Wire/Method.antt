-- ===== src/Wire/Method.antt =====
-- wire/method.go.
pub mod Ceilings
use lastro.Common.{
  ℕ, ◌≤◌, ◌<◌, ◌≡◌, ◌↔◌, ◌⊎◌, Bool, true, false, ◌||◌, ◌==◌, leb, if◌then◌else◌, arith,
}

pub data Class : Type 0 where
  inference documentation expert_testimony direct_observation : Class

abbrev pub ceiling_direct_observation : ℕ
ceiling_direct_observation = 242

abbrev pub ceiling_expert_testimony : ℕ
ceiling_expert_testimony = 216

abbrev pub ceiling_documentation : ℕ
ceiling_documentation = 191

abbrev pub ceiling_inference : ℕ
ceiling_inference = 165

abbrev pub method_subprocess : ℕ
method_subprocess = 1

abbrev pub method_file_read : ℕ
method_file_read = 2

abbrev pub method_network_fetch : ℕ
method_network_fetch = 3

abbrev pub method_database_query : ℕ
method_database_query = 4

abbrev pub method_static_config : ℕ
method_static_config = 5

abbrev pub method_tool_schema : ℕ
method_tool_schema = 6

abbrev pub method_signed_expert : ℕ
method_signed_expert = 7

abbrev pub method_derived : ℕ
method_derived = 8

-- The cases of the switch, in their order.
unfoldable pub class_of : ℕ → Class × ℕ
class_of id =
    if id == method_subprocess
      || (id == method_file_read || (id == method_network_fetch || id == method_database_query))
    then (direct_observation, ceiling_direct_observation)
    else if id == method_static_config || id == method_tool_schema
    then (documentation, ceiling_documentation)
    else if id == method_signed_expert
    then (expert_testimony, ceiling_expert_testimony)
    else (inference, ceiling_inference)

-- The ceiling is a confidence in percent in q8, rounded down: no ceiling exceeds its decimal.
abbrev pub percent : Class → ℕ
percent inference = 65
percent documentation = 75
percent expert_testimony = 85
percent direct_observation = 95
