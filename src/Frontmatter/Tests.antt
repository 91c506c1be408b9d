-- ===== src/Frontmatter/Tests.antt =====
-- Settings of a stage over those of a workflow.
use zerochain.Prelude.{ℕ, ◌≡◌, refl, some, none, true, false, [], ◌∷◌, bytes}
use zerochain.Frontmatter.{ContextFrontmatter, merge}

abbrev no_settings : ContextFrontmatter ℕ
no_settings = record {
  role = none;
  container = none;
  command = none;
  human_gate = false;
  timeout = none;
  network = none;
  definition_of_done = none;
  provider_profile = none;
  thinking_mode = none;
  capture_reasoning = false;
  multimodal_input = [];
  tools = [];
  tool_loop_max_iterations = none;
  index_output = false;
  metric = none;
  memory_sources = [];
  memory_chunk_size = none;
  memory_chunk_overlap = none;
}

abbrev of_stage : ContextFrontmatter ℕ
of_stage = record no_settings { role = some (bytes "author"); timeout = some 60 }

abbrev of_workflow : ContextFrontmatter ℕ
of_workflow = record no_settings {
  timeout = some 300;
  human_gate = true;
  tools = bytes "shell" ∷ [];
}

abbrev of_host : ContextFrontmatter ℕ
of_host = record no_settings { network = some (bytes "none"); tools = bytes "http" ∷ [] }

stage_timeout_first : (merge of_stage of_workflow).timeout ≡ some 60
unfolding merge
stage_timeout_first = refl
