-- ===== src/Capacity/Checks.antt =====
-- core/preflight.py, the checks and their aggregate, and the check of the memory.
use range42_backend_api.Prelude.{
  ℕ, ◌+◌, ◌-◌, String, Bool, true, false, Option, none, some, List, any, nat_eq, string_eq,
  option_eq, if◌then◌else◌,
}
use range42_backend_api.Capacity.Plans.{Texts}

-- `result`: pass, warn or block
pub data Verdict : Type 0 where
  passes : Verdict
  warns : Verdict
  blocks : Verdict

pub record PreflightCheck : Type 0 where
  pub resource : String
  pub result : Verdict
  pub code : Option String
  pub pool : Option String

abbrev pub is_block : Verdict → Bool
is_block Verdict.blocks = true
is_block _ = false

abbrev pub is_warn : Verdict → Bool
is_warn Verdict.warns = true
is_warn _ = false

-- `PreflightReport.result`
unfoldable pub report_result : List PreflightCheck → Verdict
report_result checks =
    if any (λ c. is_block c.result) checks
    then Verdict.blocks
    else if any (λ c. is_warn c.result) checks
    then Verdict.warns
    else Verdict.passes

-- `_check`
abbrev pub check : String → Verdict → Option String → Option String → PreflightCheck
check resource result code pool = record {
  resource = resource;
  result = result;
  code = code;
  pool = pool;
}

abbrev pub warn : String → String → PreflightCheck
warn resource code = check resource Verdict.warns (some code) none

abbrev pub block : String → String → PreflightCheck
block resource code = check resource Verdict.blocks (some code) none

-- The check of the memory that needs no block.
unfoldable pub memory_check : Texts → Option ℕ → ℕ → ℕ → PreflightCheck
memory_check t none free required = warn "memory" "MEMORY_CAPACITY_UNKNOWN"
memory_check t (some total) free required =
    if t.reaches (total - free + required) total
    then warn "memory" "MEMORY_PRESSURE"
    else check "memory" Verdict.passes none none
