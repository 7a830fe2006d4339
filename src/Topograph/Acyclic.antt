-- ===== src/Topograph/Acyclic.antt =====
-- What the check of the connections in EvoNN-Topograph/src/topograph/genome.py rules out.
use mathlib.Core.Path.{subst}
use evo_nn_research.Prelude.{
  sym, ap, ◌∙◌, ℕ, ◌≡◌, ◌⊎◌, inl, inr, true, List, [], ◌∷◌, none, some, ℤ, pos, ltb_ℤ, arith, ok,
}
use evo_nn_research.Topograph.{
  LayerGene, ConnectionGene, Node, layer, Genome, find_layer, check_edges, valid_graph,
}

abbrev pub AmongEdges : ConnectionGene → List ConnectionGene → Type 0
AmongEdges e [] = ⊥
AmongEdges e (x ∷ xs) = (x ≡ e) ⊎ AmongEdges e xs

-- One layer leads to another through connections, enabled or not.
pub data Leads (edges : List ConnectionGene) (first : ℕ) : ℕ → Type 0 where
  edge :
      (e : ConnectionGene) (to : ℕ)
      → AmongEdges e edges
      → e.source ≡ layer first
      → e.target ≡ to
      → Leads edges first to
  follow :
      (e : ConnectionGene) (from to : ℕ)
      → Leads edges first from
      → AmongEdges e edges
      → e.source ≡ layer from
      → e.target ≡ to
      → Leads edges first to

-- The order of the layer with an innovation.
abbrev pub order_of : List LayerGene → ℕ → ℤ
order_of layers n = elim (find_layer n layers) [ none ↦ pos 0 | some l ↦ l.order ]

head-goes_up :
    (layers : List LayerGene) (pairs : List (Node × ℕ)) (x : ConnectionGene)
    (xs : List ConnectionGene) (from : ℕ)
    → check_edges layers pairs (x ∷ xs) ≡ ok tt
    → x.source ≡ layer from
    → ltb_ℤ (order_of layers from) (order_of layers x.target) ≡ true
unfolding check_edges
head-goes_up layers pairs x xs from h s = ground arith

pub edge-goes_up :
    (layers : List LayerGene) (pairs : List (Node × ℕ)) (edges : List ConnectionGene)
    (e : ConnectionGene) (from : ℕ)
    → check_edges layers pairs edges ≡ ok tt
    → AmongEdges e edges
    → e.source ≡ layer from
    → ltb_ℤ (order_of layers from) (order_of layers e.target) ≡ true
unfolding check_edges
edge-goes_up layers pairs [] e from h among s = absurd among
edge-goes_up layers pairs (x ∷ xs) e from h (inl here) s =
    subst (λ (t : ConnectionGene). ltb_ℤ (order_of layers from) (order_of layers t.target) ≡ true)
      here (head-goes_up layers pairs x xs from h (ap (λ (t : ConnectionGene). t.source) here ∙ s))
edge-goes_up layers pairs (x ∷ xs) e from h (inr there) s =
    edge-goes_up layers ((x.source, x.target) ∷ pairs) xs e from (ground arith) there s

ltb_ℤ-trans : (a b c : ℤ) → ltb_ℤ a b ≡ true → ltb_ℤ b c ≡ true → ltb_ℤ a c ≡ true
ltb_ℤ-trans a b c h k = ground arith

pub ltb_ℤ-irrefl : (a : ℤ) → ltb_ℤ a a ≡ true → ⊥
ltb_ℤ-irrefl a h = ground arith

pub edges_checked :
    (g : Genome) → valid_graph g ≡ ok tt → check_edges g.layers [] g.connections ≡ ok tt
unfolding valid_graph
edges_checked g h = ground arith

path_goes_up :
    (g : Genome) (a b : ℕ)
    → valid_graph g ≡ ok tt
    → Leads g.connections a b
    → ltb_ℤ (order_of g.layers a) (order_of g.layers b) ≡ true
path_goes_up g a b h (edge e _ among s t) =
    rw (sym t) (edge-goes_up g.layers [] g.connections e a (edges_checked g h) among s)
path_goes_up g a b h (follow e from _ path among s t) = rw (sym t) (
    ltb_ℤ-trans (order_of g.layers a) (order_of g.layers from) (order_of g.layers e.target)
      (path_goes_up g a from h path)
      (edge-goes_up g.layers [] g.connections e from (edges_checked g h) among s))

-- In a valid genome no layer leads back to itself, neither through enabled connections nor through
-- disabled ones.
pub acyclic : (g : Genome) (n : ℕ) → valid_graph g ≡ ok tt → ¬ Leads g.connections n n
acyclic g n h path = ltb_ℤ-irrefl (order_of g.layers n) (path_goes_up g n n h path)
