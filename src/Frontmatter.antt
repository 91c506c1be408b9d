-- ===== src/Frontmatter.antt =====
-- crates/zerochain-core/src/frontmatter.rs: the settings of a stage and how those of a stage are laid
-- over those of its workflow. A metric is a parameter `M`: merging does not look into it.
pub mod Merge
mod Tests
use zerochain.Prelude.{ℕ, Bool, false, ◌||◌, Option, none, some, List, [], ◌∷◌, Text}

pub record MultimodalInput : Type 0 where
  pub input_type : Text
  pub path : Text
  pub detail : Option Text

pub record ContextFrontmatter (M : Type 0) : Type 0 where
  pub role : Option Text
  pub container : Option Text
  pub command : Option Text
  pub human_gate : Bool
  pub timeout : Option ℕ
  pub network : Option Text
  pub definition_of_done : Option Text
  pub provider_profile : Option Text
  pub thinking_mode : Option Text
  pub capture_reasoning : Bool
  pub multimodal_input : List MultimodalInput
  pub tools : List Text
  pub tool_loop_max_iterations : Option ℕ
  pub index_output : Bool
  pub metric : Option M
  pub memory_sources : List Text
  pub memory_chunk_size : Option ℕ
  pub memory_chunk_overlap : Option ℕ

-- `Option::or` and `Option::or_else`
abbrev pub or_else {ℓ} : {A : Type ℓ} → Option A → Option A → Option A
or_else none b = b
or_else (some a) b = some a

-- `if xs.is_empty() { ys } else { xs }`
abbrev pub or_list {ℓ} : {A : Type ℓ} → List A → List A → List A
or_list [] ys = ys
or_list (x ∷ xs) ys = x ∷ xs

unfoldable pub default : {M : Type 0} → ContextFrontmatter M
default = record {
  role = none;
  container = none;
  command = none;
  human_gate = false;
  timeout = none;
  network = none;
  definition_of_done = none;
  provider_profile = none;
  thinking_mode = none;
  capture_reasoning = false;
  multimodal_input = [];
  tools = [];
  tool_loop_max_iterations = none;
  index_output = false;
  metric = none;
  memory_sources = [];
  memory_chunk_size = none;
  memory_chunk_overlap = none;
}

-- `self.merge(base)`
unfoldable pub merge :
    {M : Type 0} → ContextFrontmatter M → ContextFrontmatter M → ContextFrontmatter M
merge self base = record {
  role = or_else self.role base.role;
  container = or_else self.container base.container;
  command = or_else self.command base.command;
  human_gate = self.human_gate || base.human_gate;
  timeout = or_else self.timeout base.timeout;
  network = or_else self.network base.network;
  definition_of_done = or_else self.definition_of_done base.definition_of_done;
  provider_profile = or_else self.provider_profile base.provider_profile;
  thinking_mode = or_else self.thinking_mode base.thinking_mode;
  capture_reasoning = self.capture_reasoning || base.capture_reasoning;
  multimodal_input = or_list self.multimodal_input base.multimodal_input;
  tools = or_list self.tools base.tools;
  tool_loop_max_iterations = or_else self.tool_loop_max_iterations base.tool_loop_max_iterations;
  index_output = self.index_output || base.index_output;
  metric = or_else self.metric base.metric;
  memory_sources = or_list self.memory_sources base.memory_sources;
  memory_chunk_size = or_else self.memory_chunk_size base.memory_chunk_size;
  memory_chunk_overlap = or_else self.memory_chunk_overlap base.memory_chunk_overlap;
}
