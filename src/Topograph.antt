-- ===== src/Topograph.antt =====
-- The genome of EvoNN-Topograph/src/topograph/genome.py: the graph of layers and connections. Fields
-- that only training reads (activation, precisions, sparsity, rates) are left out. A finite float
-- `order` is the integer that counts it in units of 2^-1074, of which every binary64 number is a
-- multiple; fields with a lower bound of zero are natural numbers.
pub mod Acyclic
pub mod Reachable
pub mod Ordering
pub mod Complete
pub mod Innovations
pub mod Seed
use evo_nn_research.Prelude.{
  ℕ, zero, suc, ◌+◌, ◌*◌, ◌%◌, Bool, true, false, not, ◌&&◌, ◌||◌, List, [], ◌∷◌, ◌++◌, map, Option,
  none, some, ℤ, ltb_ℤ, eqb_ℤ, ltb, leb, ◌==◌, if◌then◌else◌, is_some, any, all, length, Result, ok,
  raise, guard, reject_if, ◌>>=◌, ◌>>◌,
}

pub data GraphError : Type 0 where
  width_out_of_range attention_width not_square : GraphError
  not_bounded output_missing unknown_node not_acyclic duplicate_connection : GraphError
  output_unreachable convolution_invalid experts_disagree : GraphError

pub data Operator : Type 0 where
  dense sparse_dense residual attention_lite spatial transformer_lite : Operator

pub record LayerGene : Type 0 where
  pub innovation : ℕ
  pub width : ℕ
  pub order : ℤ
  pub operator : Operator
  pub heads : ℕ
  pub enabled : Bool

abbrev pub is_attention : Operator → Bool
is_attention attention_lite = true
is_attention transformer_lite = true
is_attention _ = false

abbrev pub is_spatial : Operator → Bool
is_spatial spatial = true
is_spatial _ = false

-- `int(width**0.5)` for a width of at most 256: the greatest root of at most `k`.
abbrev pub root_from : ℕ → ℕ → ℕ
root_from zero width = zero
root_from (suc k) width =
    let smaller = root_from k width in if leb (suc k * suc k) width then suc k else smaller

-- `Field(ge=4, le=256)` and `dimensions`
unfoldable pub validate_layer : LayerGene → Result GraphError (Unit {0})
validate_layer n = do
  guard (leb 4 n.width && leb n.width 256) width_out_of_range
  guard (not (is_attention n.operator) || n.width % (4 * n.heads) == 0) attention_width
  let root = root_from 16 n.width
  guard (not (is_spatial n.operator) || root * root == n.width) not_square

-- The source of a connection: -1 is the external input.
pub data Node : Type 0 where
  external : Node
  layer : ℕ → Node

pub record ConnectionGene : Type 0 where
  pub innovation : ℕ
  pub source : Node
  pub target : ℕ
  pub enabled : Bool

pub record Genome : Type 0 where
  pub layers : List LayerGene
  pub connections : List ConnectionGene
  pub output : ℕ
  -- the layers that `convolutions` name
  pub convolutions : List ℕ
  -- the innovations of the experts, and `gate.top_k`
  pub experts : List ℕ
  pub gate : Option ℕ

abbrev pub num_in : ℕ → List ℕ → Bool
num_in n [] = false
num_in n (m ∷ ms) = m == n || num_in n ms

-- `len(set(numbers)) == len(numbers)`
unfoldable pub distinct_nums : List ℕ → Bool
distinct_nums [] = true
distinct_nums (n ∷ ns) = not (num_in n ns) && distinct_nums ns

-- `nodes[innovation]`: the innovations are unique where it is read.
unfoldable pub find_layer : ℕ → List LayerGene → Option LayerGene
find_layer n [] = none
find_layer n (l ∷ ls) = if l.innovation == n then some l else find_layer n ls

abbrev pub node_eq : Node → Node → Bool
node_eq external external = true
node_eq (layer n) (layer m) = n == m
node_eq _ _ = false

abbrev pub node_in : Node → List Node → Bool
node_in n [] = false
node_in n (m ∷ ms) = node_eq m n || node_in n ms

-- `(edge.source, edge.target) in pairs`
abbrev pub pair_in : Node → ℕ → List (Node × ℕ) → Bool
pair_in s t [] = false
pair_in s t ((a, b) ∷ ps) = (node_eq a s && b == t) || pair_in s t ps

-- `edge.source != -1 and nodes[edge.source].order >= nodes[edge.target].order`, negated.
abbrev pub goes_up : List LayerGene → Node → LayerGene → Bool
goes_up layers external target = true
goes_up layers (layer s) target = elim (find_layer s layers) [
  | none ↦ false
  | some from ↦ ltb_ℤ from.order target.order
]

abbrev pub is_known : List LayerGene → Node → Bool
is_known layers external = true
is_known layers (layer s) = is_some (find_layer s layers)

-- The loop over the connections with the set `pairs`.
unfoldable pub check_edges :
    List LayerGene → List (Node × ℕ) → List ConnectionGene → Result GraphError (Unit {0})
check_edges layers pairs [] = ok tt
check_edges layers pairs (e ∷ es) = elim (find_layer e.target layers) [
  | none ↦ raise unknown_node
  | some target ↦ do
    guard (is_known layers e.source) unknown_node
    guard (goes_up layers e.source target) not_acyclic
    reject_if (pair_in e.source e.target pairs) duplicate_connection
    check_edges layers ((e.source, e.target) ∷ pairs) es
]

-- `key=lambda n: (n.order, n.innovation)`
abbrev pub comes_before : LayerGene → LayerGene → Bool
comes_before a b = ltb_ℤ a.order b.order || (eqb_ℤ a.order b.order && ltb a.innovation b.innovation)

unfoldable pub insert_layer : LayerGene → List LayerGene → List LayerGene
insert_layer l [] = l ∷ []
insert_layer l (m ∷ ms) = if comes_before m l then m ∷ insert_layer l ms else l ∷ m ∷ ms

unfoldable pub sort_layers : List LayerGene → List LayerGene
sort_layers [] = []
sort_layers (l ∷ ls) = insert_layer l (sort_layers ls)

-- `e.enabled and e.target == node.innovation and e.source in seen`
abbrev pub feeds : List Node → LayerGene → ConnectionGene → Bool
feeds seen node e = e.enabled && e.target == node.innovation && node_in e.source seen

-- The pass over the sorted layers that fills `seen`.
unfoldable pub forward : List ConnectionGene → List Node → List LayerGene → List Node
forward edges seen [] = seen
forward edges seen (n ∷ ns) =
    forward edges
      (if n.enabled && any (feeds seen n) edges then layer n.innovation ∷ seen else seen) ns

abbrev pub is_spatial_layer : List LayerGene → ℕ → Bool
is_spatial_layer layers n = elim (find_layer n layers) [
  | none ↦ false
  | some l ↦ is_spatial l.operator
]

abbrev pub is_enabled_layer : List LayerGene → ℕ → Bool
is_enabled_layer layers n = elim (find_layer n layers) [ none ↦ false | some l ↦ l.enabled ]

-- `bool(experts) == (gate is not None)`, and `top_k` of a gate is at most the number of experts.
abbrev pub gate_agrees : List ℕ → Option ℕ → Bool
gate_agrees [] none = true
gate_agrees [] (some top_k) = false
gate_agrees (e ∷ es) none = false
gate_agrees (e ∷ es) (some top_k) = leb top_k (length (e ∷ es))

-- `valid_graph`
unfoldable pub valid_graph : Genome → Result GraphError (Unit {0})
valid_graph g = do
  guard
      (ltb 0 (length g.layers)
        && leb (length g.layers) 32
        && leb (length g.connections) 128
        && distinct_nums (
            map (λ (l : LayerGene). l.innovation) g.layers
            ++ (map (λ (e : ConnectionGene). e.innovation) g.connections ++ g.experts)))
      not_bounded
  guard (is_enabled_layer g.layers g.output) output_missing
  check_edges g.layers [] g.connections
  guard (node_in (layer g.output) (forward g.connections (external ∷ []) (sort_layers g.layers)))
      output_unreachable
  guard (distinct_nums g.convolutions && all (is_spatial_layer g.layers) g.convolutions)
      convolution_invalid
  guard (gate_agrees g.experts g.gate) experts_disagree
