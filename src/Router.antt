-- ===== src/Router.antt =====
-- src/router.ts: the one-to-many search over lazily loaded tiles.
-- `get_tile` is what the tile loader answers for a pair of tile coordinates; `expired` is the test
-- of the wall clock against the deadline after a number of settled nodes. An array that is read
-- out of range gives no value, and a write out of range changes nothing.
pub mod Groups
pub mod Paths
pub mod Sound
pub mod TargetIndex
pub mod Rounds
pub mod Legs
pub mod Growth
pub mod Fuel
pub mod Twins
use open_distance.Prelude.{
  ◌>>=◌, ℕ, zero, suc, ◌+◌, ◌-◌, ◌%◌, Bool, true, false, ◌&&◌, ◌||◌, not, Option, none, some, List,
  [], ◌∷◌, if◌then◌else◌, nat_beq, nat_eq, ltb, leb, length, get_elem?, set,
}
use open_distance.Prelude.Dict.{lookup, insert, has_value}
use open_distance.Prelude.Int.{ℤ}
use open_distance.Text.{Text, text_eq}
use open_distance.Float.{Float}
use open_distance.Geo.{haversine_meters}
use open_distance.Tiles.{Tile, pack_tile_id, unpack_tile_id}
use open_distance.Heap
use open_distance.Heap.{get_or}
pub use open_distance.Router.Groups.{NodeRef, LegResult, DestGroup, Targets, inner_of}
unfoldable pub use open_distance.Router.Groups.{
  has_text, index_candidate, index_candidates, index_groups, count_groups, target_at,
}

pub record TileScratch (f : Float) : Type 0 where
  pub tile : Tile f
  pub dist : List f.R
  pub visited : List Bool
  pub len_to : List f.R

-- one entry of MinHeap's parallel arrays
pub record Entry (f : Float) : Type 0 where
  pub prio : f.R
  pub g : f.R
  pub tile : ℕ
  pub dense : ℕ
  pub len : f.R

-- The variables of `oneToMany` that its loop changes.
pub record Search (f : Float) : Type 0 where
  pub heap : List (Entry f)
  pub scratch : List (ℕ × TileScratch f)
  pub satisfied : List Text
  pub out : List (Text × LegResult f)
  pub remaining : ℕ
  pub settled : ℕ

abbrev pub replicate {ℓ} : {A : Type ℓ} → ℕ → A → List A
replicate zero a = []
replicate (suc n) a = a ∷ replicate n a

pub record Edge (f : Float) : Type 0 where
  pub target : ℕ
  pub time_s : f.R
  pub len_m : f.R

-- the three reads at an edge index
unfoldable pub edge_at : (f : Float) → Tile f → ℕ → Option (Edge f)
edge_at f tile e = do
  target ← get_elem? tile.edge_targets e
  time_s ← get_elem? tile.edge_time_s e
  len_m ← get_elem? tile.edge_len_m e
  some (record { target = target; time_s = time_s; len_m = len_m })

-- The tile and the index of the node that an edge of tile `tp` leads to; `none` is `continue`.
unfoldable pub next_node : (f : Float) → Tile f → ℕ → ℕ → Option (ℕ × ℕ)
next_node f tile tp target =
    let outside : Option (ℕ × ℕ) = do
      packed ← get_elem? tile.extern_packed (target - tile.n_local)
      dense ← get_elem? tile.extern_dense (target - tile.n_local)
      some (packed, dense)
    in if ltb target tile.n_local
      then some (tp, target)
      else if leb tile.n_extern (target - tile.n_local)
      then none
      else outside

abbrev pub is_visited : (f : Float) → TileScratch f → ℕ → Bool
is_visited f sc dense = elim (get_elem? sc.visited dense) [ none ↦ false | some b ↦ b ]

abbrev pub is_closer : (f : Float) → f.R → TileScratch f → ℕ → Bool
is_closer f d sc dense = elim (get_elem? sc.dist dense) [ none ↦ false | some old ↦ f.lt d old ]

module _ (f : Float) (get_tile : ℤ → ℤ → Option (Tile f)) (expired : ℕ → Bool) where
  open f use {R, lit, infinity, add, mul, div, lt, fround}

  unfoldable pub load_scratch :
      List (ℕ × TileScratch f) → ℕ → Option (List (ℕ × TileScratch f) × TileScratch f)
  unfolding lookup insert
  load_scratch scratch tp =
      let (tx, ty) = unpack_tile_id tp in
      let load : Option (List (ℕ × TileScratch f) × TileScratch f) = do
        tile ← get_tile tx ty
        let s : TileScratch f = record {
          tile = tile;
          dist = replicate tile.n_local infinity;
          visited = replicate tile.n_local false;
          len_to = replicate tile.n_local (lit 0);
        }
        some (insert tp s scratch, s)
      in elim (lookup tp scratch) [ some cached ↦ some (scratch, cached) | none ↦ load ]

  -- the loop of `hEst`
  unfoldable pub nearest : List (DestGroup f) → List Text → R → R → R → R
  unfolding has_text haversine_meters
  nearest [] satisfied lat lon best = best
  nearest (g ∷ gs) satisfied lat lon best =
      let m = haversine_meters f lat lon g.dest_lat g.dest_lon in
      nearest gs satisfied lat lon
        (if has_text g.id satisfied then best else if lt m best then m else best)

  -- MAX_ROAD_SPEED_M_S is 30 and HEURISTIC_WEIGHT 1.5. `f.le infinity best` is the test for
  -- infinity, which nothing exceeds.
  unfoldable pub h_est : List (DestGroup f) → List Text → R → R → R
  unfolding nearest
  h_est groups satisfied lat lon =
      let best = nearest groups satisfied lat lon infinity in
      if f.le infinity best then lit 0 else mul (div best (lit 30)) (div (lit 3) (lit 2))

  abbrev pub node_h : List (DestGroup f) → List Text → Tile f → ℕ → R
  node_h groups satisfied tile dense =
      h_est groups satisfied (get_or tile.local_lat dense (lit 0))
        (get_or tile.local_lon dense (lit 0))

  module _ (groups : List (DestGroup f)) (targets : Targets) (max_settled : ℕ) where
    abbrev pub push_entry : Search f → Entry f → Search f
    push_entry s e = record s { heap = Heap.push f (λ (e : Entry f). e.prio) e s.heap }

    -- The end of the edge loop's body. The popped tile's own scratch is one of the loaded ones, so
    -- the first two branches of the code are one here.
    unfoldable pub relax : Tile f → ℕ → R → R → ℕ → ℕ → Search f → Search f
    unfolding lookup insert h_est Heap.push
    relax tile cur_dense nd nl next_tile next_dense s = elim (lookup next_tile s.scratch) [
      | some other ↦
          let h = node_h groups s.satisfied other.tile next_dense in
          let closer = record other { dist = set other.dist next_dense (fround nd) } in
          let s' = record s { scratch = insert next_tile closer s.scratch } in
          let e : Entry f = record {
            prio = add nd h;
            g = nd;
            tile = next_tile;
            dense = next_dense;
            len = nl;
          } in
          if is_visited f other next_dense
          then s
          else if is_closer f nd other next_dense
          then push_entry s' e
          else s
      | none ↦
          let h = node_h groups s.satisfied tile cur_dense in
          let e : Entry f = record {
            prio = add nd h;
            g = nd;
            tile = next_tile;
            dense = next_dense;
            len = nl;
          } in
          push_entry s e
    ]

    -- one edge
    unfoldable pub visit_edge : Tile f → Entry f → ℕ → Search f → Search f
    unfolding relax edge_at next_node
    visit_edge tile cur e s = elim (edge_at f tile e) [
      | none ↦ s
      | some edge ↦ elim (next_node f tile cur.tile edge.target) [
        | none ↦ s
        | some (next_tile, next_dense) ↦
            relax tile cur.dense (add cur.g edge.time_s) (add cur.len edge.len_m) next_tile
              next_dense s
      ]
    ]

    -- the edge loop, over the indices that are left
    unfoldable pub visit_edges : Tile f → Entry f → ℕ → ℕ → Search f → Search f
    unfolding visit_edge
    visit_edges tile cur zero e s = s
    visit_edges tile cur (suc n) e s = visit_edges tile cur n (suc e) (visit_edge tile cur e s)

    unfoldable pub expand : Tile f → Entry f → Search f → Search f
    unfolding visit_edges
    expand tile cur s = elim (get_elem? tile.edge_offsets cur.dense) [
      | none ↦ s
      | some e_start ↦ elim (get_elem? tile.edge_offsets (cur.dense + 1)) [
        | none ↦ s
        | some e_end ↦ visit_edges tile cur (e_end - e_start) e_start s
      ]
    ]

    -- a leg for the group of a settled node, if it has none yet
    unfoldable pub reach_target : ℕ → ℕ → R → R → Search f → Search f
    unfolding target_at has_text insert
    reach_target tp dense g len s = elim (target_at targets tp dense) [
      | none ↦ s
      | some id ↦ if has_text id s.satisfied then s else record s {
        satisfied = id ∷ s.satisfied;
        out = insert id (record { time_s = g; len_m = len }) s.out;
        remaining = s.remaining - 1;
      }
    ]

    -- `break`, or the next round
    pub data Round : Type 0 where
      stop again : Search f → Round

    -- The popped node settled: past the visited test.
    unfoldable pub settle : Entry f → TileScratch f → Search f → Round
    unfolding insert reach_target expand
    settle cur active s =
        let marked = record active {
          visited = set active.visited cur.dense true;
          len_to = set active.len_to cur.dense (fround cur.len);
        } in
        let s₁ = record s { scratch = insert cur.tile marked s.scratch; settled = s.settled + 1 } in
        let s₂ = reach_target cur.tile cur.dense cur.g cur.len s₁ in
        if nat_beq (s₁.settled % 4096) 0 && expired s₁.settled
        then stop s₁
        else if nat_beq s₂.remaining 0
        then stop s₂
        else if leb active.tile.n_local cur.dense
        then again s₂
        else again (expand active.tile cur s₂)

    -- one round of the `while` loop, with the popped entry and the heap without it
    unfoldable pub round : Entry f → List (Entry f) → Search f → Round
    unfolding load_scratch settle
    round cur rest s = elim (load_scratch s.scratch cur.tile) [
      | none ↦ again (record s { heap = rest })
      | some (scratch, active) ↦
          let s' = record s { heap = rest; scratch = scratch } in
          if is_visited f active cur.dense then again s' else settle cur active s'
    ]

    -- the loop's test and body
    unfoldable pub next_round : Search f → Round
    unfolding round Heap.pop
    next_round s = elim (Heap.pop f (λ (e : Entry f). e.prio) s.heap) [
      | none ↦ stop s
      | some (cur, rest) ↦
          if nat_beq s.remaining 0 || leb max_settled s.settled then stop s else round cur rest s
    ]

    -- `none` means that the fuel ran out
    unfoldable pub loop : ℕ → Search f → Option (Search f)
    unfolding next_round
    loop zero s = none
    loop (suc fuel) s = elim (next_round s) [ stop s' ↦ some s' | again s' ↦ loop fuel s' ]

    -- The state at the loop's start, once the source's tile is loaded.
    unfoldable pub start : NodeRef → List (ℕ × TileScratch f) → TileScratch f → Search f
    unfolding reach_target count_groups insert h_est Heap.push
    start src scratch loaded =
        let tp = pack_tile_id src.tx src.ty in
        let source = record loaded {
          dist = set loaded.dist src.dense (lit 0);
          len_to = set loaded.len_to src.dense (lit 0);
        } in
        let s₀ : Search f = record {
          heap = [];
          scratch = insert tp source scratch;
          satisfied = [];
          out = [];
          remaining = count_groups f groups;
          settled = 0;
        } in
        let s₁ = reach_target tp src.dense (lit 0) (lit 0) s₀ in
        let h = node_h groups s₁.satisfied source.tile src.dense in
        let e : Entry f = record {
          prio = h;
          g = lit 0;
          tile = tp;
          dense = src.dense;
          len = lit 0;
        } in
        push_entry s₁ e

    -- `oneToMany` past the load of the source's tile; with no group left the loop returns at once
    unfoldable pub search_from :
        ℕ
        → NodeRef
        → Option (List (ℕ × TileScratch f) × TileScratch f)
        → Option (List (Text × LegResult f))
    unfolding start loop
    search_from fuel src none = some []
    search_from fuel src (some (scratch, loaded)) = do
      s ← loop fuel (start src scratch loaded)
      some s.out

  -- `none` means that the fuel ran out
  unfoldable pub one_to_many :
      ℕ → ℕ → NodeRef → List (DestGroup f) → Option (List (Text × LegResult f))
  unfolding index_groups load_scratch search_from
  one_to_many fuel max_settled src groups =
      if nat_beq (length groups) 0
      then some []
      else search_from groups (index_groups f groups []) max_settled fuel src
          (load_scratch [] (pack_tile_id src.tx src.ty))
