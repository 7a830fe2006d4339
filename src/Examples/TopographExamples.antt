-- ===== src/Examples/TopographExamples.antt =====
-- A genome of two layers, for EvoNN-Topograph/src/topograph/genome.py.
use evo_nn_research.Prelude.{
  Text, codes, lookup, arith, ◌≡◌, refl, inl, inr, true, false, [], ◌∷◌, none, some, text_eq,
  if◌then◌else◌, pos, ok, raise,
}
use evo_nn_research.Topograph.{
  LayerGene, ConnectionGene, external, layer, Genome, dense, spatial, node_in, find_layer,
  check_edges, insert_layer, sort_layers, forward, distinct_nums, valid_graph, validate_layer,
  not_acyclic, output_unreachable, not_square,
}
use evo_nn_research.Topograph.Acyclic.{Leads, acyclic}
use evo_nn_research.Topograph.Reachable.{Receives, input, pass, output-Receives}
use evo_nn_research.Topograph.Complete.{forward_complete}
use evo_nn_research.Topograph.Seed.{seed_genome, seed_genome_valid, active_layers, backward}
use evo_nn_research.Topograph.Innovations.{Innovations, obtain, IsRegistry, obtain-IsRegistry}

program : Unit {0}
unfolding find_layer check_edges insert_layer sort_layers forward distinct_nums valid_graph
    validate_layer
program = tt

abbrev first : LayerGene
first = record {
  innovation = 0;
  width = 16;
  order = pos 1;
  operator = dense;
  heads = 1;
  enabled = true;
}

abbrev second : LayerGene
second = record first { innovation = 1; order = pos 2 }

abbrev from_input : ConnectionGene
from_input = record { innovation = 2; source = external; target = 0; enabled = true }

abbrev between : ConnectionGene
between = record { innovation = 3; source = layer 0; target = 1; enabled = true }

abbrev two_layers : Genome
two_layers = record {
  layers = second ∷ first ∷ [];
  connections = between ∷ from_input ∷ [];
  output = 1;
  convolutions = [];
  experts = [];
  gate = none;
}

abbrev back : ConnectionGene
back = record { innovation = 4; source = layer 1; target = 0; enabled = false }

valid_graph_runs :
    (valid_graph two_layers ≡ ok tt)
    × (valid_graph (record two_layers { connections = back ∷ between ∷ from_input ∷ [] })
        ≡ raise not_acyclic)
    × (valid_graph (record two_layers { connections = from_input ∷ [] }) ≡ raise output_unreachable)
    × (validate_layer (record first { width = 20; operator = spatial }) ≡ raise not_square)
unfolding program
valid_graph_runs = (refl, refl, refl, refl)

acyclic_example : ¬ Leads two_layers.connections 1 1
acyclic_example = acyclic two_layers 1 valid_graph_runs.0

output-Receives_example : Receives two_layers.layers two_layers.connections (layer 1)
output-Receives_example = output-Receives two_layers valid_graph_runs.0

first-Receives : Receives two_layers.layers two_layers.connections (layer 0)
first-Receives =
    pass first from_input (layer 0) (inr (inl refl)) (inr (inl refl)) refl refl refl
      (input external refl) refl

forward_complete_example :
    node_in
      (layer 0)
      (forward two_layers.connections (external ∷ []) (sort_layers two_layers.layers))
    ≡ true
forward_complete_example = forward_complete two_layers (layer 0) valid_graph_runs.0 first-Receives

abbrev fresh : Innovations
fresh = record { counter = 0; registry = [] }

obtain_runs :
    (let (a, s) = obtain (codes "initial_layer") fresh in
      let (b, t) = obtain (codes "edge") s in
      let (c, u) = obtain (codes "initial_layer") t in a ∷ b ∷ c ∷ [])
    ≡ 0 ∷ 1 ∷ 0 ∷ []
unfolding obtain
obtain_runs = refl

fresh-IsRegistry : IsRegistry fresh
fresh-IsRegistry = record {
  below = λ s n h. absurd (ground arith);
  apart = λ s t n h k. absurd (ground arith);
}

obtain-IsRegistry_example :
    IsRegistry (obtain (codes "initial_layer") fresh).1
    × ((t : Text)
        → lookup t (obtain (codes "initial_layer") fresh).1.registry ≡ (
            if text_eq (codes "initial_layer") t
            then some (obtain (codes "initial_layer") fresh).0
            else lookup t fresh.registry))
obtain-IsRegistry_example = obtain-IsRegistry (codes "initial_layer") fresh fresh-IsRegistry

seed_genome_valid_example : valid_graph (seed_genome fresh 16 dense) ≡ ok tt
seed_genome_valid_example = seed_genome_valid fresh 16 dense fresh-IsRegistry

abbrev idle : LayerGene
idle = record first { innovation = 5; order = pos 3 }

-- A layer that leads nowhere is not active.
active_layers_runs :
    active_layers (record two_layers { layers = idle ∷ second ∷ first ∷ [] }) ≡ first ∷ second ∷ []
unfolding program active_layers backward
active_layers_runs = refl
