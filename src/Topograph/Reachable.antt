-- ===== src/Topograph/Reachable.antt =====
-- The pass over the sorted layers in EvoNN-Topograph/src/topograph/genome.py: what it marks.
use mathlib.Core.Path.{subst}
use evo_nn_research.Prelude.{
  ◌≡◌, ◌⊎◌, inl, inr, refl, true, false, Bool, Bool-cases, List, [], ◌∷◌, any, ◌&&◌, ==_iff, arith,
  ok, All, if◌then◌else◌,
}
use evo_nn_research.Topograph.{
  LayerGene, ConnectionGene, Node, external, layer, Genome, node_eq, node_in, feeds, forward,
  insert_layer, sort_layers, valid_graph,
}
use evo_nn_research.Topograph.Acyclic.{AmongEdges}

abbrev pub AmongLayers : LayerGene → List LayerGene → Type 0
AmongLayers l [] = ⊥
AmongLayers l (x ∷ xs) = (x ≡ l) ⊎ AmongLayers l xs

-- Signals from the external input arrive at a node: through enabled connections and enabled layers.
pub data Receives (layers : List LayerGene) (edges : List ConnectionGene) : Node → Type 0 where
  input : (n : Node) → n ≡ external → Receives layers edges n
  pass :
      (l : LayerGene) (e : ConnectionGene) (n : Node)
      → AmongLayers l layers
      → AmongEdges e edges
      → l.enabled ≡ true
      → e.enabled ≡ true
      → e.target ≡ l.innovation
      → Receives layers edges e.source
      → n ≡ layer l.innovation
      → Receives layers edges n

module _ (layers : List LayerGene) (edges : List ConnectionGene) where
  node_in-Receives :
      (n : Node) (seen : List Node)
      → All (λ m. Receives layers edges m) seen
      → node_in n seen ≡ true
      → Receives layers edges n
  node_in-Receives n [] h k = absurd (ground arith)
  node_in-Receives n (m ∷ ms) h k = elim (Bool-cases (node_eq m n)) [
    | inl same ↦ subst (λ t. Receives layers edges t) (node_of_eq m n same) h.0
    | inr differs ↦ node_in-Receives n ms h.1 (ground arith)
  ]
    where
      node_of_eq : (a b : Node) → node_eq a b ≡ true → a ≡ b
      node_of_eq a b h = ground arith

  fed :
      (seen : List Node) (n : LayerGene) (es : List ConnectionGene)
      → any (feeds seen n) es ≡ true
      → (e : ConnectionGene) × AmongEdges e es × (feeds seen n e ≡ true)
  fed seen n [] h = absurd (ground arith)
  fed seen n (e ∷ es) h = elim (Bool-cases (feeds seen n e)) [
    | inl here ↦ (e, inl refl, here)
    | inr there ↦ let (f, among, holds) = fed seen n es (rest there h) in (f, inr among, holds)
  ]
    where
      rest :
          feeds seen n e ≡ false → any (feeds seen n) (e ∷ es) ≡ true → any (feeds seen n) es ≡ true
      rest there h = ground arith

  feeds-Receives :
      (seen : List Node) (n : LayerGene)
      → All (λ m. Receives layers edges m) seen
      → AmongLayers n layers
      → (n.enabled && any (feeds seen n) edges) ≡ true
      → Receives layers edges (layer n.innovation)
  feeds-Receives seen n h among k =
      let (e, on, holds) = fed seen n edges (ground arith) in
      pass n e (layer n.innovation) among on (ground arith) (ground arith)
        (ground (arith, ==_iff e.target n.innovation))
        (node_in-Receives e.source seen h (ground arith)) refl

  forward-Receives :
      (seen : List Node) (ns : List LayerGene)
      → All (λ m. Receives layers edges m) seen
      → All (λ l. AmongLayers l layers) ns
      → All (λ m. Receives layers edges m) (forward edges seen ns)
  unfolding forward
  forward-Receives seen [] h among = h
  forward-Receives seen (n ∷ ns) h among =
      forward-Receives
        (if n.enabled && any (feeds seen n) edges then layer n.innovation ∷ seen else seen) ns
        (marked (n.enabled && any (feeds seen n) edges) refl) among.1
    where
      marked :
          (test : Bool)
          → (n.enabled && any (feeds seen n) edges) ≡ test
          → All (λ m. Receives layers edges m) (if test then layer n.innovation ∷ seen else seen)
      marked true e = (feeds-Receives seen n h among.0 e, h)
      marked false e = h

insert_layer-Among :
    (layers : List LayerGene) (l : LayerGene) (ls : List LayerGene)
    → AmongLayers l layers
    → All (λ m. AmongLayers m layers) ls
    → All (λ m. AmongLayers m layers) (insert_layer l ls)
unfolding insert_layer
insert_layer-Among layers l [] h k = (h, tt)
insert_layer-Among layers l (m ∷ ms) h k = ground (arith, insert_layer-Among layers l ms h k.1)

sort_layers-Among :
    (layers ls : List LayerGene)
    → All (λ m. AmongLayers m layers) ls
    → All (λ m. AmongLayers m layers) (sort_layers ls)
unfolding sort_layers
sort_layers-Among layers [] h = tt
sort_layers-Among layers (l ∷ ls) h =
    insert_layer-Among layers l (sort_layers ls) h.0 (sort_layers-Among layers ls h.1)

weaken :
    (x : LayerGene) (xs ls : List LayerGene)
    → All (λ m. AmongLayers m xs) ls
    → All (λ m. AmongLayers m (x ∷ xs)) ls
weaken x xs [] h = tt
weaken x xs (l ∷ ls) h = (inr h.0, weaken x xs ls h.1)

every_layer : (ls : List LayerGene) → All (λ m. AmongLayers m ls) ls
every_layer [] = tt
every_layer (l ∷ ls) = (inl refl, weaken l ls ls (every_layer ls))

pub every_sorted : (ls : List LayerGene) → All (λ m. AmongLayers m ls) (sort_layers ls)
every_sorted ls = sort_layers-Among ls ls (every_layer ls)

output_marked :
    (g : Genome)
    → valid_graph g ≡ ok tt
    → node_in (layer g.output) (forward g.connections (external ∷ []) (sort_layers g.layers)) ≡ true
unfolding valid_graph
output_marked g h = ground arith

-- In a valid genome signals from the external input arrive at the output layer, through enabled
-- connections and enabled layers only.
pub output-Receives :
    (g : Genome) → valid_graph g ≡ ok tt → Receives g.layers g.connections (layer g.output)
output-Receives g h =
    node_in-Receives g.layers g.connections (layer g.output) _
      (forward-Receives g.layers g.connections (external ∷ []) (sort_layers g.layers)
        (input external refl, tt) (every_sorted g.layers))
      (output_marked g h)
