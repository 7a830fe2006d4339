-- ===== src/Topograph/Ordering.antt =====
-- The sorted layers in EvoNN-Topograph/src/topograph/genome.py.
use evo_nn_research.Prelude.{◌≡◌, inl, inr, false, Bool-cases, List, [], ◌∷◌, ltb_ℤ, arith, All}
use evo_nn_research.Topograph.{LayerGene, insert_layer, sort_layers, comes_before}
use evo_nn_research.Topograph.Reachable.{AmongLayers}

-- Layers that come in the order of `order`.
abbrev pub InOrder : List LayerGene → Type 0
InOrder [] = Unit
InOrder (n ∷ ns) = All (λ (m : LayerGene). ltb_ℤ m.order n.order ≡ false) ns × InOrder ns

insert-All :
    (P : LayerGene → Type 0) (l : LayerGene) (ls : List LayerGene)
    → P l
    → All P ls
    → All P (insert_layer l ls)
unfolding insert_layer
insert-All P l [] h k = (h, tt)
insert-All P l (m ∷ ms) h k = elim (Bool-cases (comes_before m l)) [
  | inl before ↦ rw before (k.0, insert-All P l ms h k.1)
  | inr after ↦ rw after (h, k)
]

later :
    (l m : LayerGene) (ms : List LayerGene)
    → comes_before m l ≡ false
    → All (λ (k : LayerGene). ltb_ℤ k.order m.order ≡ false) ms
    → All (λ (k : LayerGene). ltb_ℤ k.order l.order ≡ false) (m ∷ ms)
later l m [] h k = (ground arith, tt)
later l m (x ∷ xs) h k = let (a, b) = later l m xs h k.1 in (a, (ground arith, b))

insert-InOrder : (l : LayerGene) (ls : List LayerGene) → InOrder ls → InOrder (insert_layer l ls)
unfolding insert_layer
insert-InOrder l [] h = (tt, tt)
insert-InOrder l (m ∷ ms) h = elim (Bool-cases (comes_before m l)) [
  | inl before ↦ rw before (
    insert-All (λ (k : LayerGene). ltb_ℤ k.order m.order ≡ false) l ms (ground arith) h.0,
    insert-InOrder l ms h.1,
  )
  | inr after ↦ rw after (later l m ms after h.0, h)
]

pub sort_layers-InOrder : (ls : List LayerGene) → InOrder (sort_layers ls)
unfolding sort_layers
sort_layers-InOrder [] = tt
sort_layers-InOrder (l ∷ ls) = insert-InOrder l (sort_layers ls) (sort_layers-InOrder ls)

insert-Among :
    (l m : LayerGene) (ls : List LayerGene)
    → AmongLayers m (l ∷ ls)
    → AmongLayers m (insert_layer l ls)
unfolding insert_layer
insert-Among l m [] h = h
insert-Among l m (x ∷ xs) h = elim (Bool-cases (comes_before x l)) [
  | inl before ↦ rw before (elim h [
    | inl here ↦ inr (insert-Among l m xs (inl here))
    | inr there ↦ elim there [
      | inl first ↦ inl first
      | inr rest ↦ inr (insert-Among l m xs (inr rest))
    ]
  ])
  | inr after ↦ rw after h
]

pub sort_layers-Among :
    (m : LayerGene) (ls : List LayerGene) → AmongLayers m ls → AmongLayers m (sort_layers ls)
unfolding sort_layers
sort_layers-Among m [] h = h
sort_layers-Among m (l ∷ ls) h =
    insert-Among l m (sort_layers ls)
      (elim h [ inl here ↦ inl here | inr there ↦ inr (sort_layers-Among m ls there) ])
