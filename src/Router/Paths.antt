-- ===== src/Router/Paths.antt =====
-- Paths in the tiled graph, and the nodes that the heap may hold.
use open_distance.Prelude.{ℕ, ◌+◌, ◌≤◌, ◌<◌, ◌≡◌, Option, some, get_elem?}
use open_distance.Prelude.Int.{ℤ}
use open_distance.Float.{Float}
use open_distance.Tiles.{Tile, pack_tile_id, unpack_tile_id}
use open_distance.Router.{NodeRef, Edge, edge_at, next_node}

module _ (f : Float) (get_tile : ℤ → ℤ → Option (Tile f)) where
  -- the tile of a packed id
  abbrev pub tile_at : ℕ → Option (Tile f)
  tile_at tp = get_tile (unpack_tile_id tp).0 (unpack_tile_id tp).1

  -- Edge `e` of a tile leaves the node `dense`.
  abbrev pub Leaves : Tile f → ℕ → ℕ → Type 0
  Leaves tile dense e =
      (e_start : ℕ) × (e_end : ℕ) × (get_elem? tile.edge_offsets dense ≡ some e_start)
      × (get_elem? tile.edge_offsets (dense + 1) ≡ some e_end)
      × (e_start ≤ e)
      × (e < e_end)

  -- A path from the source to a node, with its seconds and metres added up edge by edge.
  pub data Route (src : NodeRef) : ℕ → ℕ → f.R → f.R → Type 0 where
    here : Route src (pack_tile_id src.tx src.ty) src.dense (f.lit 0) (f.lit 0)
    hop :
        {tp dense : ℕ} {g len : f.R} (tile : Tile f) (e : ℕ) (edge : Edge f) {tp' dense' : ℕ}
        → Route src tp dense g len
        → tile_at tp ≡ some tile
        → Leaves tile dense e
        → edge_at f tile e ≡ some edge
        → next_node f tile tp edge.target ≡ some (tp', dense')
        → Route src tp' dense' (f.add g edge.time_s) (f.add len edge.len_m)
