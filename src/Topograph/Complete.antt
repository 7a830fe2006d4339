-- ===== src/Topograph/Complete.antt =====
-- The single pass over the sorted layers in EvoNN-Topograph/src/topograph/genome.py misses nothing.
use mathlib.Core.Path.{subst}
use evo_nn_research.Prelude.{
  ℕ, ◌≡◌, inl, inr, refl, sym, true, false, Bool, Bool-cases, List, [], ◌∷◌, ◌++◌, map, any, some,
  ℤ, ltb_ℤ, ◌&&◌, ==_iff, arith, ok, All, if◌then◌else◌,
}
use evo_nn_research.Topograph.{
  LayerGene, ConnectionGene, Node, external, layer, Genome, node_eq, node_in, feeds, forward,
  sort_layers, valid_graph, find_layer, num_in, distinct_nums,
}
use evo_nn_research.Topograph.Acyclic.{AmongEdges, order_of, edge-goes_up, edges_checked}
use evo_nn_research.Topograph.Reachable.{AmongLayers, Receives, input, pass, every_sorted}
use evo_nn_research.Topograph.Ordering.{InOrder, sort_layers-InOrder, sort_layers-Among}

module _ (edges : List ConnectionGene) where
  forward-keeps :
      (x : Node) (ns : List LayerGene) (seen : List Node)
      → node_in x seen ≡ true
      → node_in x (forward edges seen ns) ≡ true
  unfolding forward
  forward-keeps x [] seen h = h
  forward-keeps x (n ∷ ns) seen h =
      forward-keeps x ns
        (if n.enabled && any (feeds seen n) edges then layer n.innovation ∷ seen else seen)
        (ground arith)

  -- What the pass did not mark on the way was marked before.
  forward-only :
      (x : Node) (ns : List LayerGene) (seen : List Node)
      → All (λ (n : LayerGene). node_eq (layer n.innovation) x ≡ false) ns
      → node_in x (forward edges seen ns) ≡ true
      → node_in x seen ≡ true
  unfolding forward
  forward-only x [] seen h k = k
  forward-only x (n ∷ ns) seen h k =
      let earlier =
        forward-only x ns
          (if n.enabled && any (feeds seen n) edges then layer n.innovation ∷ seen else seen) h.1
          k in
      unmarked (n.enabled && any (feeds seen n) edges) earlier
    where
      unmarked :
          (test : Bool)
          → node_in x (if test then layer n.innovation ∷ seen else seen) ≡ true
          → node_in x seen ≡ true
      unmarked true e = ground arith
      unmarked false e = e

  any-feeds :
      (seen : List Node) (n : LayerGene) (e : ConnectionGene) (es : List ConnectionGene)
      → AmongEdges e es
      → feeds seen n e ≡ true
      → any (feeds seen n) es ≡ true
  any-feeds seen n e [] among h = absurd among
  any-feeds seen n e (x ∷ xs) (inl here) h =
      ground (arith, subst (λ t. feeds seen n t ≡ true) (sym here) h)
  any-feeds seen n e (x ∷ xs) (inr there) h = ground (arith, any-feeds seen n e xs there h)

  forward-head :
      (e : ConnectionGene) (l : LayerGene) (ns : List LayerGene) (seen : List Node)
      → AmongEdges e edges
      → l.enabled ≡ true
      → e.enabled ≡ true
      → e.target ≡ l.innovation
      → node_in e.source seen ≡ true
      → node_in (layer l.innovation) (forward edges seen (l ∷ ns)) ≡ true
  unfolding forward
  forward-head e l ns seen among on live target marked =
      let fires : any (feeds seen l) edges ≡ true =
        any-feeds seen l e edges among (ground (arith, ==_iff e.target l.innovation)) in
      forward-keeps (layer l.innovation) ns _
        (rw (on, fires) (ground (arith, ==_iff l.innovation l.innovation)))

find_layer_unique :
    (ls : List LayerGene) (l : LayerGene)
    → distinct_nums (map (λ (k : LayerGene). k.innovation) ls) ≡ true
    → AmongLayers l ls
    → find_layer l.innovation ls ≡ some l
unfolding find_layer distinct_nums
find_layer_unique [] l h among = absurd among
find_layer_unique (x ∷ xs) l h (inl here) =
    subst (λ (t : LayerGene). find_layer t.innovation (x ∷ xs) ≡ some t) here
      (ground (arith, ==_iff x.innovation x.innovation))
find_layer_unique (x ∷ xs) l h (inr there) =
    ground
      (arith, find_layer_unique xs l, num_in-among xs l there, ==_iff x.innovation l.innovation)
  where
    num_in-among :
        (ls : List LayerGene) (l : LayerGene)
        → AmongLayers l ls
        → num_in l.innovation (map (λ (k : LayerGene). k.innovation) ls) ≡ true
    num_in-among [] l h = absurd h
    num_in-among (x ∷ xs) l (inl here) =
        subst
          (λ (t : LayerGene).
            num_in t.innovation (map (λ (k : LayerGene). k.innovation) (x ∷ xs)) ≡ true)
          here (ground (arith, ==_iff x.innovation x.innovation))
    num_in-among (x ∷ xs) l (inr there) = ground (arith, num_in-among xs l there)

-- The layers of `ns`, in order, are layers of the genome, and the source of `e` lies below `l`.
module _ (layers : List LayerGene) (edges : List ConnectionGene)
    (unique : distinct_nums (map (λ (k : LayerGene). k.innovation) layers) ≡ true)
    (up : (e : ConnectionGene) (from : ℕ)
      → AmongEdges e edges
      → e.source ≡ layer from
      → ltb_ℤ (order_of layers from) (order_of layers e.target) ≡ true) where
  order_of-layer : (l : LayerGene) → AmongLayers l layers → order_of layers l.innovation ≡ l.order
  order_of-layer l among = rw (find_layer_unique layers l unique among, order_of) refl

  node_of_eq : (n : ℕ) (a : Node) → node_eq (layer n) a ≡ true → a ≡ layer n
  node_of_eq n a h = ground arith

  not_source :
      (e : ConnectionGene) (l m : LayerGene)
      → AmongEdges e edges
      → e.target ≡ l.innovation
      → AmongLayers l layers
      → AmongLayers m layers
      → ltb_ℤ m.order l.order ≡ false
      → node_eq (layer m.innovation) e.source ≡ false
  not_source e l m among target in_l in_m above =
      elim (Bool-cases (node_eq (layer m.innovation) e.source)) [
        | inl same ↦
            absurd (below_itself (up e m.innovation among (node_of_eq m.innovation e.source same)))
        | inr differs ↦ differs
      ]
    where
      below_itself : ltb_ℤ (order_of layers m.innovation) (order_of layers e.target) ≡ true → ⊥
      below_itself h = cc (h, order_of-layer m in_m, order_of-layer l in_l, target, above)

  not_sources :
      (e : ConnectionGene) (l : LayerGene) (ms : List LayerGene)
      → AmongEdges e edges
      → e.target ≡ l.innovation
      → AmongLayers l layers
      → All (λ m. AmongLayers m layers) ms
      → All (λ (m : LayerGene). ltb_ℤ m.order l.order ≡ false) ms
      → All (λ (m : LayerGene). node_eq (layer m.innovation) e.source ≡ false) ms
  not_sources e l [] among target in_l in_ms above = tt
  not_sources e l (m ∷ ms) among target in_l in_ms above = (
    not_source e l m among target in_l in_ms.0 above.0,
    not_sources e l ms among target in_l in_ms.1 above.1,
  )

  MarksTarget : ConnectionGene → LayerGene → List Node → List LayerGene → Type 0
  MarksTarget e l seen ns =
      InOrder ns
      → All (λ m. AmongLayers m layers) ns
      → node_in e.source (forward edges seen ns) ≡ true
      → node_in (layer l.innovation) (forward edges seen ns) ≡ true

  head-MarksTarget :
      (e : ConnectionGene) (l : LayerGene) (ns : List LayerGene) (seen : List Node)
      → AmongEdges e edges
      → l.enabled ≡ true
      → e.enabled ≡ true
      → e.target ≡ l.innovation
      → MarksTarget e l seen (l ∷ ns)
  unfolding MarksTarget
  head-MarksTarget e l ns seen among on live target ordered in_ns marked =
      forward-head edges e l ns seen among on live target (
        forward-only edges e.source (l ∷ ns) seen
          (not_sources e l (l ∷ ns) among target in_ns.0 in_ns (not_below l.order, ordered.0))
          marked)
    where
      not_below : (a : ℤ) → ltb_ℤ a a ≡ false
      not_below a = ground arith

  forward-MarksTarget :
      (e : ConnectionGene) (l : LayerGene) (ns : List LayerGene) (seen : List Node)
      → AmongEdges e edges
      → l.enabled ≡ true
      → e.enabled ≡ true
      → e.target ≡ l.innovation
      → AmongLayers l ns
      → MarksTarget e l seen ns
  unfolding MarksTarget forward
  forward-MarksTarget e l [] seen among on live target in_ns = absurd in_ns
  forward-MarksTarget e l (n ∷ ns) seen among on live target (inl here) =
      subst (λ t. MarksTarget e l seen (t ∷ ns)) (sym here)
        (head-MarksTarget e l ns seen among on live target)
  forward-MarksTarget e l (n ∷ ns) seen among on live target (inr there) =
      λ ordered in_layers marked.
        forward-MarksTarget e l ns
          (if n.enabled && any (feeds seen n) edges then layer n.innovation ∷ seen else seen) among
          on live target there ordered.1 in_layers.1 marked

distinct_nums-prefix : (ns ms : List ℕ) → distinct_nums (ns ++ ms) ≡ true → distinct_nums ns ≡ true
unfolding distinct_nums
distinct_nums-prefix [] ms h = refl
distinct_nums-prefix (n ∷ ns) ms h =
    ground (arith, distinct_nums-prefix ns ms, num_in-prefix n ns ms)
  where
    num_in-prefix : (n : ℕ) (ns ms : List ℕ) → num_in n (ns ++ ms) ≡ false → num_in n ns ≡ false
    num_in-prefix n [] ms h = refl
    num_in-prefix n (x ∷ xs) ms h = ground (arith, num_in-prefix n xs ms)

unique_innovations :
    (g : Genome)
    → valid_graph g ≡ ok tt
    → distinct_nums (map (λ (l : LayerGene). l.innovation) g.layers) ≡ true
unfolding valid_graph
unique_innovations g h =
    distinct_nums-prefix (map (λ (l : LayerGene). l.innovation) g.layers)
      (map (λ (e : ConnectionGene). e.innovation) g.connections ++ g.experts) (ground arith)

-- In a valid genome the single pass over the sorted layers marks every node at which signals from
-- the external input arrive.
pub forward_complete :
    (g : Genome) (n : Node)
    → valid_graph g ≡ ok tt
    → Receives g.layers g.connections n
    → node_in n (forward g.connections (external ∷ []) (sort_layers g.layers)) ≡ true
unfolding MarksTarget
forward_complete g n h (input _ start) =
    forward-keeps g.connections n (sort_layers g.layers) (external ∷ []) (rw start refl)
forward_complete g n h (pass l e _ among_l among_e on live target from here) =
    subst (λ t. node_in t (forward g.connections (external ∷ []) (sort_layers g.layers)) ≡ true)
      (sym here)
      (forward-MarksTarget g.layers g.connections (unique_innovations g h)
        (λ e from among s.
          edge-goes_up g.layers [] g.connections e from (edges_checked g h) among s)
        e l (sort_layers g.layers) (external ∷ []) among_e on live target
        (sort_layers-Among l g.layers among_l) (sort_layers-InOrder g.layers)
        (every_sorted g.layers) (forward_complete g e.source h from))
