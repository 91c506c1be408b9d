-- ===== src/Frontmatter/Merge.antt =====
-- Laying settings over one another: several layers can be merged in any grouping.
use zerochain.Prelude.{◌≡◌, refl, Bool, true, false, ◌||◌, Option, none, some, List, [], ◌∷◌}
use zerochain.Frontmatter.{ContextFrontmatter, merge, default, or_else, or_list}

or_else_assoc {ℓ} :
    {A : Type ℓ} (a b c : Option A) → or_else (or_else a b) c ≡ or_else a (or_else b c)
or_else_assoc none b c = refl
or_else_assoc (some x) b c = refl

or_else-none {ℓ} : {A : Type ℓ} (a : Option A) → or_else a none ≡ a
or_else-none none = refl
or_else-none (some x) = refl

or_list_assoc {ℓ} :
    {A : Type ℓ} (a b c : List A) → or_list (or_list a b) c ≡ or_list a (or_list b c)
or_list_assoc [] b c = refl
or_list_assoc (x ∷ xs) b c = refl

or_list-nil {ℓ} : {A : Type ℓ} (a : List A) → or_list a [] ≡ a
or_list-nil [] = refl
or_list-nil (x ∷ xs) = refl

or_assoc : (a b c : Bool) → ((a || b) || c) ≡ (a || (b || c))
or_assoc true b c = refl
or_assoc false b c = refl

or_false : (a : Bool) → (a || false) ≡ a
or_false true = refl
or_false false = refl

-- Settings with the default ones as a unit on both sides form a monoid under merging: the settings of
-- a stage over those of its workflow over those of the host mean the same in either grouping.
pub merge-monoid :
    {M : Type 0} (a b c : ContextFrontmatter M)
    → (merge (merge a b) c ≡ merge a (merge b c)) × (merge default a ≡ a) × (merge a default ≡ a)
unfolding merge default
merge-monoid a b c = (
  λ i. record {
    role = or_else_assoc a.role b.role c.role i;
    container = or_else_assoc a.container b.container c.container i;
    command = or_else_assoc a.command b.command c.command i;
    human_gate = or_assoc a.human_gate b.human_gate c.human_gate i;
    timeout = or_else_assoc a.timeout b.timeout c.timeout i;
    network = or_else_assoc a.network b.network c.network i;
    definition_of_done =
        or_else_assoc a.definition_of_done b.definition_of_done c.definition_of_done i;
    provider_profile = or_else_assoc a.provider_profile b.provider_profile c.provider_profile i;
    thinking_mode = or_else_assoc a.thinking_mode b.thinking_mode c.thinking_mode i;
    capture_reasoning = or_assoc a.capture_reasoning b.capture_reasoning c.capture_reasoning i;
    multimodal_input = or_list_assoc a.multimodal_input b.multimodal_input c.multimodal_input i;
    tools = or_list_assoc a.tools b.tools c.tools i;
    tool_loop_max_iterations =
        or_else_assoc a.tool_loop_max_iterations b.tool_loop_max_iterations
          c.tool_loop_max_iterations i;
    index_output = or_assoc a.index_output b.index_output c.index_output i;
    metric = or_else_assoc a.metric b.metric c.metric i;
    memory_sources = or_list_assoc a.memory_sources b.memory_sources c.memory_sources i;
    memory_chunk_size = or_else_assoc a.memory_chunk_size b.memory_chunk_size c.memory_chunk_size i;
    memory_chunk_overlap =
        or_else_assoc a.memory_chunk_overlap b.memory_chunk_overlap c.memory_chunk_overlap i;
  },
  refl,
  λ i. record {
    role = or_else-none a.role i;
    container = or_else-none a.container i;
    command = or_else-none a.command i;
    human_gate = or_false a.human_gate i;
    timeout = or_else-none a.timeout i;
    network = or_else-none a.network i;
    definition_of_done = or_else-none a.definition_of_done i;
    provider_profile = or_else-none a.provider_profile i;
    thinking_mode = or_else-none a.thinking_mode i;
    capture_reasoning = or_false a.capture_reasoning i;
    multimodal_input = or_list-nil a.multimodal_input i;
    tools = or_list-nil a.tools i;
    tool_loop_max_iterations = or_else-none a.tool_loop_max_iterations i;
    index_output = or_false a.index_output i;
    metric = or_else-none a.metric i;
    memory_sources = or_list-nil a.memory_sources i;
    memory_chunk_size = or_else-none a.memory_chunk_size i;
    memory_chunk_overlap = or_else-none a.memory_chunk_overlap i;
  },
)
