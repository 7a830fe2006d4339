-- ===== src/Topograph/Seed.antt =====
-- The first genome of a search, and the layers that a genome uses, of
-- EvoNN-Topograph/src/topograph/genome.py.
use evo_nn_research.Prelude.{
  ℕ, ◌^◌, ◌≡◌, ◌≢◌, ap, ◌∙◌, Bool, true, ◌&&◌, List, [], ◌∷◌, ◌++◌, none, some, pos, Text, codes,
  text_eq_iff, arith, ok, ◌==◌, ==_iff, if◌then◌else◌,
}
use evo_nn_research.Topograph.{
  LayerGene, ConnectionGene, Node, external, layer, Genome, Operator, find_layer, distinct_nums,
  check_edges, insert_layer, sort_layers, forward, node_in, valid_graph,
}
use evo_nn_research.Topograph.Innovations.{Innovations, obtain, IsRegistry, obtain-IsRegistry}

abbrev pub enabled_layers : List LayerGene → List LayerGene
enabled_layers [] = []
enabled_layers (l ∷ ls) = if l.enabled then l ∷ enabled_layers ls else enabled_layers ls

abbrev pub reversed : List LayerGene → List LayerGene
reversed [] = []
reversed (l ∷ ls) = reversed ls ++ l ∷ []

-- The sources of the enabled connections to a layer.
abbrev pub sources : ℕ → List ConnectionGene → List Node
sources n [] = []
sources n (e ∷ es) = if e.enabled && e.target == n then e.source ∷ sources n es else sources n es

-- The pass over the reversed layers that fills `backward`.
unfoldable pub backward : List ConnectionGene → List Node → List LayerGene → List Node
backward edges needed [] = needed
backward edges needed (n ∷ ns) =
    backward edges
      (if node_in (layer n.innovation) needed then sources n.innovation edges ++ needed else needed)
      ns

abbrev pub keep_layers : (LayerGene → Bool) → List LayerGene → List LayerGene
keep_layers test [] = []
keep_layers test (l ∷ ls) = if test l then l ∷ keep_layers test ls else keep_layers test ls

-- `active_layers`; the test of `enabled` in `forward` holds of every layer in `ordered`.
unfoldable pub active_layers : Genome → List LayerGene
active_layers g =
    let ordered = sort_layers (enabled_layers g.layers) in
    let ahead = forward g.connections (external ∷ []) ordered in
    let back = backward g.connections (layer g.output ∷ []) (reversed ordered) in
    keep_layers (λ l. node_in (layer l.innovation) ahead && node_in (layer l.innovation) back)
      ordered

abbrev pub layer_signature : Text
layer_signature = codes "initial_layer"

abbrev pub edge_signature : Text
edge_signature = codes "initial_input_edge"

-- `seed_genome`, of a node and an edge with these innovations.
abbrev pub seed_of : ℕ → ℕ → ℕ → Operator → Genome
seed_of node edge width operator = record {
  layers =
      record {
        innovation = node;
        width = width;
        order = pos (2 ^ 1074);
        operator = operator;
        heads = 1;
        enabled = true;
      }
      ∷ [];
  connections = record { innovation = edge; source = external; target = node; enabled = true } ∷ [];
  output = node;
  convolutions = [];
  experts = [];
  gate = none;
}

unfoldable pub seed_genome : Innovations → ℕ → Operator → Genome
seed_genome s width operator =
    let (node, after) = obtain layer_signature s in
    let (edge, _) = obtain edge_signature after in seed_of node edge width operator

seed_of_valid :
    (node edge width : ℕ) (operator : Operator)
    → node ≢ edge
    → valid_graph (seed_of node edge width operator) ≡ ok tt
unfolding valid_graph find_layer distinct_nums check_edges insert_layer sort_layers forward
seed_of_valid node edge width operator apart = ground (arith, ==_iff node node, ==_iff edge node)

seed_apart :
    (s : Innovations)
    → IsRegistry s
    → (obtain layer_signature s).0 ≢ (obtain edge_signature (obtain layer_signature s).1).0
seed_apart s r same =
    let (r1, law1) = obtain-IsRegistry layer_signature s r in
    let after = (obtain layer_signature s).1 in
    let (r2, law2) = obtain-IsRegistry edge_signature after r1 in
    different (
      r2.apart layer_signature edge_signature (obtain edge_signature after).0
        (law2 layer_signature ∙ (law1 layer_signature ∙ ap some same)) (law2 edge_signature))
  where
    different : layer_signature ≢ edge_signature
    different h = absurd (ground (arith, (text_eq_iff layer_signature edge_signature).1 h))

-- The graph of the first genome of a search is accepted, whatever the registry of innovations knew
-- before, if identities lie below its counter and are not shared.
pub seed_genome_valid :
    (s : Innovations) (width : ℕ) (operator : Operator)
    → IsRegistry s
    → valid_graph (seed_genome s width operator) ≡ ok tt
unfolding seed_genome
seed_genome_valid s width operator r =
    seed_of_valid (obtain layer_signature s).0
      (obtain edge_signature (obtain layer_signature s).1).0 width operator (seed_apart s r)
