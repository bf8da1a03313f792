-- ===== src/L1.antt =====
-- src/l1_graph.ts: the highway overlay and the bidirectional search on it.
-- Edge times are whole seconds and edge lengths whole decametres, so sums are exact numbers; the
-- keys of the heaps are doubles. An array that is read out of range gives no value.
pub mod Walks
pub mod Sound
pub mod Route
pub mod Decode
pub mod Layout
pub mod Snap
use open_distance.Prelude.{
  ◌>>=◌, ℕ, zero, suc, ◌+◌, ◌-◌, ◌*◌, Bool, true, false, ◌&&◌, ◌||◌, Option, none, some, List, [],
  ◌∷◌, if◌then◌else◌, nat_beq, nat_eq, ltb, leb, get_elem?, length,
}
use open_distance.Prelude.Dict.{lookup, insert}
use open_distance.Float.{Float}
use open_distance.Geo.{haversine_meters}
use open_distance.Heap
use open_distance.Heap.{get_or}

pub record L1Graph (f : Float) : Type 0 where
  pub n : ℕ
  pub m : ℕ
  pub lat : List f.R
  pub lon : List f.R
  pub edge_offsets : List ℕ
  pub edge_targets : List ℕ
  pub edge_time_s : List ℕ
  pub edge_len_dam : List ℕ
  pub grid_min_lat : f.R
  pub grid_min_lon : f.R
  pub grid_n_lat : ℕ
  pub grid_n_lon : ℕ
  pub grid_cell_deg : f.R
  pub grid_offsets : List ℕ
  pub grid_node_ids : List ℕ

-- one entry of MinHeap's parallel arrays
pub record Entry (f : Float) : Type 0 where
  pub prio : f.R
  pub g : ℕ
  pub node : ℕ

-- The variables of one direction: `fHeap`, `fDist`, `fLen` and `fSet`, or those of `b`.
pub record Side (f : Float) : Type 0 where
  pub heap : List (Entry f)
  pub dist : List (ℕ × ℕ)
  pub len : List (ℕ × ℕ)
  pub done : List ℕ

pub record Found : Type 0 where
  pub time_s : ℕ
  pub len_m : ℕ

-- `best` is `mu` and `muLen`, with `none` for the infinities.
pub record Search (f : Float) : Type 0 where
  pub fwd : Side f
  pub bwd : Side f
  pub best : Option Found
  pub settled : ℕ

unfoldable pub has_node : ℕ → List ℕ → Bool
has_node u [] = false
has_node u (v ∷ vs) = nat_beq v u || has_node u vs

-- `nd < (dist.get(v) ?? Infinity)`
abbrev pub improves : ℕ → Option ℕ → Bool
improves nd none = true
improves nd (some old) = ltb nd old

abbrev pub better : ℕ → Option Found → Bool
better total none = true
better total (some best) = ltb total best.time_s

-- `?? 0`
abbrev pub or_zero : Option ℕ → ℕ
or_zero none = 0
or_zero (some n) = n

pub record Result : Type 0 where
  pub time_s : ℕ
  pub len_m : ℕ
  pub settled : ℕ

pub record Edge : Type 0 where
  pub target : ℕ
  pub time_s : ℕ
  pub len_dam : ℕ

-- the three reads at an edge index
unfoldable pub edge_at : (f : Float) → L1Graph f → ℕ → Option Edge
edge_at f g i = do
  target ← get_elem? g.edge_targets i
  time_s ← get_elem? g.edge_time_s i
  len_dam ← get_elem? g.edge_len_dam i
  some (record { target = target; time_s = time_s; len_dam = len_dam })

module _ (f : Float) (g : L1Graph f) where
  open f use {R, lit, infinity, add, mul, div, le}

  abbrev pub top : List (Entry f) → R
  top [] = infinity
  top (e ∷ es) = e.prio

  abbrev coord : List R → ℕ → R
  coord a i = get_or a i (lit 0)

  -- `hFwd` and `hBwd`: HEURISTIC_WEIGHT is 1.5 and MAX_ROAD_SPEED_M_S 30
  unfoldable pub heuristic : ℕ → ℕ → R
  unfolding haversine_meters
  heuristic goal n =
      div
        (mul (div (lit 3) (lit 2)) (
          haversine_meters f (coord g.lat n) (coord g.lon n) (coord g.lat goal) (coord g.lon goal)))
        (lit 30)

  abbrev pub push_entry : Side f → Entry f → Side f
  push_entry s e = record s { heap = Heap.push f (λ (e : Entry f). e.prio) e s.heap }

  -- The body of an edge loop: an edge out of a node at time `gu` and length `lu`.
  unfoldable pub relax : ℕ → ℕ → ℕ → Edge → Side f → Side f
  unfolding has_node lookup insert heuristic Heap.push
  relax goal gu lu edge s =
      let v = edge.target in
      let nd = gu + edge.time_s in
      let s' = record s {
        dist = insert v nd s.dist;
        len = insert v (lu + edge.len_dam * 10) s.len;
      } in
      let e : Entry f = record { prio = add (lit nd) (heuristic goal v); g = nd; node = v } in
      if has_node v s.done then s else if improves nd (lookup v s.dist) then push_entry s' e else s

  unfoldable pub visit_edge : ℕ → ℕ → ℕ → ℕ → Side f → Side f
  unfolding relax edge_at
  visit_edge goal gu lu i s = elim (edge_at f g i) [
    | none ↦ s
    | some edge ↦ relax goal gu lu edge s
  ]

  unfoldable pub relax_all : ℕ → ℕ → ℕ → ℕ → ℕ → Side f → Side f
  unfolding visit_edge
  relax_all goal gu lu zero i s = s
  relax_all goal gu lu (suc n) i s = relax_all goal gu lu n (suc i) (visit_edge goal gu lu i s)

  unfoldable pub expand : ℕ → ℕ → ℕ → ℕ → Side f → Side f
  unfolding relax_all
  expand goal u gu lu s = elim (get_elem? g.edge_offsets u) [
    | none ↦ s
    | some s₀ ↦ elim (get_elem? g.edge_offsets (u + 1)) [
      | none ↦ s
      | some e₀ ↦ relax_all goal gu lu (e₀ - s₀) s₀ s
    ]
  ]

  -- The meeting test at a node that this direction settles and the other has reached.
  unfoldable pub meet : ℕ → Side f → Side f → Option Found → Option Found
  unfolding lookup
  meet u own other best = elim (lookup u other.dist) [
    | none ↦ best
    | some there ↦ elim (lookup u own.dist) [
      | none ↦ best
      | some here ↦
          let len = or_zero (lookup u own.len) + or_zero (lookup u other.len) in
          if better (here + there) best
          then some (record { time_s = here + there; len_m = len })
          else best
    ]
  ]

  -- One direction settles a node: the edges out of it are relaxed in that direction.
  unfoldable pub grow : ℕ → ℕ → Side f → Side f
  unfolding expand lookup
  grow goal u s =
      let s' = record s { done = u ∷ s.done } in
      elim (lookup u s.dist) [
        | none ↦ s'
        | some gu ↦ elim (lookup u s.len) [ none ↦ s' | some lu ↦ expand goal u gu lu s' ]
      ]

  module _ (src dst max_settled : ℕ) where
    -- the forward branch of the loop's body
    unfoldable pub step_fwd : Entry f → List (Entry f) → Search f → Search f
    unfolding grow meet has_node
    step_fwd e rest s =
        let own = record s.fwd { heap = rest } in
        let next = record s {
          fwd = grow dst e.node own;
          best = meet e.node own s.bwd s.best;
          settled = s.settled + 1;
        } in
        if has_node e.node own.done then record s { fwd = own } else next

    -- the backward branch
    unfoldable pub step_bwd : Entry f → List (Entry f) → Search f → Search f
    unfolding grow meet has_node
    step_bwd e rest s =
        let own = record s.bwd { heap = rest } in
        let next = record s {
          bwd = grow src e.node own;
          best = meet e.node own s.fwd s.best;
          settled = s.settled + 1;
        } in
        if has_node e.node own.done then record s { bwd = own } else next

    -- `fHeap.top() + bHeap.top() >= mu`
    unfoldable pub is_closed : Search f → Bool
    is_closed s =
        let mu : R = elim s.best [ none ↦ infinity | some b ↦ lit b.time_s ] in
        le mu (add (top s.fwd.heap) (top s.bwd.heap))

    -- One round; `none` ends the loop.
    unfoldable pub round : Search f → Option (Search f)
    unfolding is_closed step_fwd step_bwd Heap.pop
    round s = elim (Heap.pop f (λ (e : Entry f). e.prio) s.fwd.heap) [
      | none ↦ none
      | some (fe, f_rest) ↦ elim (Heap.pop f (λ (e : Entry f). e.prio) s.bwd.heap) [
        | none ↦ none
        | some (be, b_rest) ↦
            let next =
              if le (top s.fwd.heap) (top s.bwd.heap)
              then step_fwd fe f_rest s
              else step_bwd be b_rest s in
            if leb max_settled s.settled || is_closed s then none else some next
      ]
    ]

    -- `none` means that the fuel ran out
    unfoldable pub loop : ℕ → Search f → Option (Search f)
    unfolding round
    loop zero s = none
    loop (suc fuel) s = elim (round s) [ none ↦ some s | some s' ↦ loop fuel s' ]

    abbrev pub side : ℕ → ℕ → Side f
    side root goal = record {
      heap =
          Heap.push f (λ (e : Entry f). e.prio)
            (record { prio = heuristic goal root; g = 0; node = root }) [];
      dist = (root, 0) ∷ [];
      len = (root, 0) ∷ [];
      done = [];
    }

    abbrev pub start : Search f
    start = record { fwd = side src dst; bwd = side dst src; best = none; settled = 0 }

    -- what is returned after the loop
    abbrev pub to_result : Search f → Option Result
    to_result s = elim s.best [
      | none ↦ none
      | some b ↦ some (record { time_s = b.time_s; len_m = b.len_m; settled = s.settled })
    ]

  -- `bidirAStarL1`; the outer `none` means that the fuel ran out
  unfoldable pub bidir_a_star_l1 : ℕ → ℕ → ℕ → ℕ → Option (Option Result)
  unfolding loop heuristic Heap.push
  bidir_a_star_l1 fuel src dst max_settled =
      let searched : Option (Option Result) =
        elim (loop src dst max_settled fuel (start src dst max_settled)) [
          | none ↦ none
          | some s ↦ some (to_result src dst max_settled s)
        ] in
      if nat_beq src dst
      then some (some (record { time_s = 0; len_m = 0; settled = 0 }))
      else searched
