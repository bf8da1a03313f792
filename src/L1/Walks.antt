-- ===== src/L1/Walks.antt =====
-- Walks in the overlay, and their reversal where every edge has its reverse.
use open_distance.Prelude.{ℕ, ◌+◌, ◌*◌, ◌≤◌, ◌<◌, ◌≡◌, refl, some, get_elem?, arith}
use open_distance.Float.{Float}
use open_distance.L1.{L1Graph, Edge, edge_at}

module _ (f : Float) (g : L1Graph f) where
  -- an edge of the graph, with its index
  abbrev pub HasEdge : ℕ → Edge → Type 0
  HasEdge u edge =
      (i : ℕ) × (first : ℕ) × (last : ℕ) × (get_elem? g.edge_offsets u ≡ some first)
      × (get_elem? g.edge_offsets (u + 1) ≡ some last)
      × (first ≤ i)
      × (i < last)
      × (edge_at f g i ≡ some edge)

  -- A walk from a node to a node, with its seconds and metres.
  pub data Walk (root : ℕ) : ℕ → ℕ → ℕ → Type 0 where
    here : Walk root root 0 0
    hop :
        {u t l : ℕ} (edge : Edge) {v t' l' : ℕ}
        → Walk root u t l
        → HasEdge u edge
        → v ≡ edge.target
        → t' ≡ t + edge.time_s
        → l' ≡ l + edge.len_dam * 10
        → Walk root v t' l'

  -- All edges are emitted in both directions when the overlay is built.
  abbrev pub IsSymmetric : Type 0
  IsSymmetric =
      (u : ℕ) (edge : Edge) → HasEdge u edge → HasEdge edge.target (record edge { target = u })

  Walk-eq : (a b t t' l l' : ℕ) → t ≡ t' → l ≡ l' → Walk a b t l → Walk a b t' l'
  Walk-eq a b t t' l l' p q w = rw (← p, ← q) w

  Walk-append : {a b c t l t' l' : ℕ} → Walk a b t l → Walk b c t' l' → Walk a c (t + t') (l + l')
  Walk-append {a} {b} {c} {t} {l} w here = Walk-eq a b t _ l _ (omega arith) (omega arith) w
  Walk-append w (hop edge w' e p q r) = hop edge (Walk-append w w') e p (omega arith) (omega arith)

  Walk-edge :
      {u : ℕ} {edge : Edge} → HasEdge u edge → Walk u edge.target edge.time_s (edge.len_dam * 10)
  Walk-edge {edge} e = hop edge here e refl (omega arith) (omega arith)

  pub Walk-reverse : IsSymmetric → {a b t l : ℕ} → Walk a b t l → Walk b a t l
  Walk-reverse sym here = here
  Walk-reverse sym {a} {b} {t} {l} (hop {u = u} edge w e p q r) =
      let back = Walk-edge (sym u edge e) in
      let all = Walk-append back (Walk-reverse sym w) in
      rw p (Walk-eq edge.target a _ t _ l (omega arith) (omega arith) all)

  -- Two walks to one node make a walk between their ends.
  pub Walk-join :
      IsSymmetric
      → {a b u t l t' l' : ℕ} → Walk a u t l
      → Walk b u t' l'
      → Walk a b (t + t') (l + l')
  Walk-join sym w w' = Walk-append w (Walk-reverse sym w')
