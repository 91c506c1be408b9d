-- ===== src/Errors.antt =====
-- crates/zerochain-core/src/error.rs: the errors that the modelled functions return. The message
-- of a `PlanError` is the value that the source formats into it; an I/O error is its path.
use zerochain.Prelude.{ℕ, Text}

pub data PlanReason : Type 0 where
  cycle_detected : ℕ → PlanReason
  body_missing : ℕ → PlanReason
  node_missing : ℕ → PlanReason
  sequence_overflow : Text → PlanReason
  stage_exists : Text → PlanReason
  sequence_taken : ℕ → PlanReason

pub data TaskReason : Type 0 where
  missing_frontmatter unclosed_frontmatter yaml_error : TaskReason

pub data Error : Type 0 where
  io_error : Text → Error
  invalid_stage_name : Text → Error
  plan_error : PlanReason → Error
  workflow_not_found : Text → Error
  no_stages : Text → Error
  invalid_workflow_name : Text → Error
  task_parse : TaskReason → Error
  unterminated_frontmatter yaml_parse : Error
