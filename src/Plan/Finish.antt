-- ===== src/Plan/Finish.antt =====
-- A run that marks each offered stage as complete, as `run_next_stage` in state.rs of zerochain-engine does
-- with a stage that succeeds, brings a plan of stages without errors to its end.
use zerochain.Prelude.{
  ℕ, zero, suc, ◌≤◌, ◌≡◌, ◌≢◌, ◌⊎◌, inl, inr, refl, sym, ap, ◌∙◌, subst, true, Option, none, some,
  List, [], ◌∷◌, arith, nat_ord, nat_eq_instance, nat_eq, ok, All, Bool-cases, Option-cases,
  text_ord, length, Text,
}
use zerochain.OrdMap
use zerochain.OrdMap.{OrdMap}
use zerochain.HashMap.{contains}
use zerochain.Stage.{Stage, StageId}
use zerochain.Graph.{WorkflowGraph, NodeId, Node, stage_id, topological_order}
use zerochain.Graph.WellFormed.{range_from}
use zerochain.Graph.Builder as Builder
use zerochain.Graph.Builder.Built.{keys-from_stages}
use zerochain.Plan.Types.{pending, complete, StageNode, ExecutionPlan}
use zerochain.Plan.FromGraph.{from_graph, from_stages}
use zerochain.Plan.State.{node_state, next_stage, is_complete}
use zerochain.Plan.Update.{mark_complete, completed, set_state}
use zerochain.Plan.Marks.{IsLoopFree, node_state-own_state, mark_complete-completed}
use zerochain.Plan.Run.{IsLoaded, incomplete, incomplete-mark_complete, same_graph}
use zerochain.Plan.Progress.{IsSettled, next_stage-none_iff}
use zerochain.Plan.Loaded.{
  NoError, NoMarker, from_stages-IsLoopFree, from_stages-IsLoaded, from_stages-NoError,
  order-from_stages,
}

-- At most `fuel` stages, one after the other.
unfoldable pub run : ℕ → ExecutionPlan → ExecutionPlan
run zero p = p
run (suc fuel) p = elim (next_stage p) [ none ↦ p | some s ↦ run fuel (mark_complete s p) ]

-- A plan without loops that knows its stages and in which none has failed.
pub record IsSound (p : ExecutionPlan) : Type 0 where
  pub loop_free : IsLoopFree p.graph
  pub loaded : IsLoaded p
  pub no_error : NoError p.stage_map
  pub ordered : topological_order p.graph ≡ ok (OrdMap.keys p.graph.nodes)
  pub some_node : p.graph.nodes ≢ []

completed-NoError :
    (s : StageId) (p : ExecutionPlan) → NoError p.stage_map → NoError (completed s p).stage_map
completed-NoError s p h k n e =
    let (m, old, changed) = OrdMap.get-update_cases k s.raw (set_state complete) n p.stage_map e in
    elim changed [
      | inl (same, made) ↦ inr (ap (λ (x : StageNode). x.state) made)
      | inr (other, kept) ↦ rw kept (h k m old)
    ]

completed-IsLoaded : (s : StageId) (p : ExecutionPlan) → IsLoaded p → IsLoaded (completed s p)
completed-IsLoaded s p h i n e =
    ground
      (arith, OrdMap.get-update (stage_id n).raw s.raw (set_state complete) p.stage_map, h i n e)

completed-IsSound : (s : StageId) (p : ExecutionPlan) → IsSound p → IsSound (completed s p)
completed-IsSound s p h = record {
  loop_free = h.loop_free;
  loaded = completed-IsLoaded s p h.loaded;
  no_error = completed-NoError s p h.no_error;
  ordered = h.ordered;
  some_node = h.some_node;
}

mark_complete-IsSound : (s : StageId) (p : ExecutionPlan) → IsSound p → IsSound (mark_complete s p)
mark_complete-IsSound s p h =
    subst IsSound (sym (mark_complete-completed p h.loop_free s)) (completed-IsSound s p h)

get-of_key :
    (i : NodeId) (m : OrdMap NodeId Node)
    → contains i (OrdMap.keys m) ≡ true
    → (n : Node) × (OrdMap.get i m ≡ some n)
get-of_key i [] h = absurd cc
get-of_key i ((j, n) ∷ m) h = elim (Bool-cases (nat_eq j i)) [
  | inl same ↦ (n, ground arith)
  | inr other ↦ let (k, e) = get-of_key i m (ground arith) in (k, ground arith)
]

state-cases :
    (p : ExecutionPlan) (i : NodeId) (n : Node)
    → IsSound p
    → OrdMap.get i p.graph.nodes ≡ some n
    → (node_state p i ≡ pending) ⊎ (node_state p i ≡ complete)
state-cases p i n h e =
    let own = node_state-own_state p i n h.loop_free e in
    elim (Option-cases (OrdMap.get (stage_id n).raw p.stage_map)) [
      | inl f ↦ inl (ground (arith, own, f))
      | inr (m, f) ↦ elim (h.no_error (stage_id n).raw m f) [
        | inl waits ↦ inl (ground (arith, own, f, waits))
        | inr done ↦ inr (ground (arith, own, f, done))
      ]
    ]

keys-IsSettled :
    (p : ExecutionPlan) (is : List NodeId)
    → IsSound p
    → ((i : NodeId) → contains i is ≡ true → contains i (OrdMap.keys p.graph.nodes) ≡ true)
    → All (IsSettled p) is
keys-IsSettled p [] h inside = tt
keys-IsSettled p (i ∷ is) h inside =
    let (n, e) = get-of_key i p.graph.nodes (inside i (ground arith)) in
    (((n, e), state-cases p i n h e), keys-IsSettled p is h (λ j k. inside j (ground arith)))

-- Where nothing is offered, all is done.
done_at_rest : (p : ExecutionPlan) → IsSound p → next_stage p ≡ none → is_complete p ≡ true
done_at_rest p h e =
    (next_stage-none_iff p (OrdMap.keys p.graph.nodes) h.ordered h.some_node
        (keys-IsSettled p (OrdMap.keys p.graph.nodes) h (λ i k. k))).0
      e

run-ends :
    (fuel : ℕ) (p : ExecutionPlan)
    → IsSound p
    → incomplete p (OrdMap.keys p.graph.nodes) ≤ fuel
    → is_complete (run fuel p) ≡ true
unfolding run
run-ends zero p h l = elim (Option-cases (next_stage p)) [
  | inl e ↦ done_at_rest p h e
  | inr (s, e) ↦ absurd (omega (arith, incomplete-mark_complete p s h.loop_free h.loaded e))
]
run-ends (suc fuel) p h l = elim (Option-cases (next_stage p)) [
  | inl e ↦ rw (e, run) (done_at_rest p h e)
  | inr (s, e) ↦
      let fewer = incomplete-mark_complete p s h.loop_free h.loaded e in
      let same : (mark_complete s p).graph ≡ p.graph = same_graph p s h.loop_free in
      let left : incomplete (mark_complete s p) (OrdMap.keys (mark_complete s p).graph.nodes)
          ≤ fuel =
        subst (λ (g : WorkflowGraph). incomplete (mark_complete s p) (OrdMap.keys g.nodes) ≤ fuel)
          (sym same) (omega (arith, fewer)) in
      rw (e, run) (run-ends fuel (mark_complete s p) (mark_complete-IsSound s p h) left)
]

incomplete-le_length : (p : ExecutionPlan) (is : List NodeId) → incomplete p is ≤ length is
incomplete-le_length p [] = omega arith
incomplete-le_length p (i ∷ is) = ground (arith, incomplete-le_length p is)

length-range_from : (lo n : ℕ) → length (range_from lo n) ≡ n
length-range_from lo zero = refl
length-range_from lo (suc n) = ap suc (length-range_from (suc lo) n)

-- A plan that is built from at least one stage, where no stage has an error marker, is complete after
-- at most as many offered and completed stages as there are.
pub run-is_complete :
    (read_control : Stage → Option Text) (stages : List Stage)
    → stages ≢ []
    → NoMarker stages
    → is_complete (run (length stages) (from_stages read_control stages)) ≡ true
unfolding from_stages from_graph
run-is_complete read_control stages some_stage fine =
    let p = from_stages read_control stages in
    let keys = keys-from_stages stages in
    let sound : IsSound p = record {
      loop_free = from_stages-IsLoopFree stages;
      loaded = from_stages-IsLoaded read_control stages;
      no_error = from_stages-NoError read_control stages fine;
      ordered = order-from_stages read_control stages;
      some_node = nonempty stages some_stage;
    } in
    let count : length (OrdMap.keys p.graph.nodes) ≡ length stages =
      ap length keys ∙ length-range_from 0 (length stages) in
    run-ends (length stages) p sound
      (omega (arith, incomplete-le_length p (OrdMap.keys p.graph.nodes), count))
  where
    nonempty : (l : List Stage) → l ≢ [] → (Builder.from_stages l).nodes ≢ []
    nonempty [] h = absurd (h refl)
    nonempty (s ∷ ss) h = λ e. absurd (ground (arith, ap OrdMap.keys e, keys-from_stages (s ∷ ss)))
