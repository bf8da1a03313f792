-- ===== src/L1/Decode.antt =====
-- src/l1_graph.ts, decodeL1: the overlay from the bytes of its file. A read past the end, a wrong
-- magic number and a wrong version, which throw, give `none`.
use open_distance.Prelude.{
  ◌>>=◌, ℕ, zero, suc, ◌+◌, ◌*◌, ◌&&◌, Option, none, some, List, [], ◌∷◌, map, if◌then◌else◌,
  nat_beq,
}
use open_distance.Prelude.Int.{pos_part, neg_part}
use open_distance.Float.{Float}
use open_distance.Tiles.Decode.{Read, get_u32, get_u16, get_u32s, signed32}
use open_distance.L1.{L1Graph}

-- a `Uint16Array` of the given length
unfoldable pub get_u16s : ℕ → List ℕ → Read (List ℕ)
unfolding get_u16
get_u16s zero buf = some ([], buf)
get_u16s (suc n) buf = do x ← get_u16 buf; xs ← get_u16s n x.1; some (x.0 ∷ xs.0, xs.1)

abbrev pub l1_magic : ℕ
l1_magic = 0x314c4848

abbrev pub fmt_ver_expected : ℕ
fmt_ver_expected = 2

module _ (f : Float) where
  -- a coordinate in units of 1e-7 degrees
  abbrev pub of_e7 : ℕ → f.R
  of_e7 n =
      let z = signed32 n in f.div (f.sub (f.lit (pos_part z)) (f.lit (neg_part z))) (f.lit 10000000)

  unfoldable pub decode_l1 : List ℕ → Option (L1Graph f)
  unfolding get_u32 get_u16s get_u32s signed32
  decode_l1 buf = do
    magic ← get_u32 buf
    fmt_ver ← get_u32 magic.1
    n ← get_u32 fmt_ver.1
    m ← get_u32 n.1
    grid_min_lat_e7 ← get_u32 m.1
    grid_min_lon_e7 ← get_u32 grid_min_lat_e7.1
    grid_n_lat ← get_u32 grid_min_lon_e7.1
    grid_n_lon ← get_u32 grid_n_lat.1
    cell_size_e5 ← get_u32 grid_n_lon.1
    reserved ← get_u32 cell_size_e5.1
    lat ← get_u32s n.0 reserved.1
    lon ← get_u32s n.0 lat.1
    edge_offsets ← get_u32s (n.0 + 1) lon.1
    edge_targets ← get_u32s m.0 edge_offsets.1
    edge_time_s ← get_u16s m.0 edge_targets.1
    edge_len_dam ← get_u16s m.0 edge_time_s.1
    grid_offsets ← get_u32s (grid_n_lat.0 * grid_n_lon.0 + 1) edge_len_dam.1
    grid_node_ids ← get_u32s n.0 grid_offsets.1
    let graph : L1Graph f = record {
      n = n.0;
      m = m.0;
      lat = map f.of_bits lat.0;
      lon = map f.of_bits lon.0;
      edge_offsets = edge_offsets.0;
      edge_targets = edge_targets.0;
      edge_time_s = edge_time_s.0;
      edge_len_dam = edge_len_dam.0;
      grid_min_lat = of_e7 grid_min_lat_e7.0;
      grid_min_lon = of_e7 grid_min_lon_e7.0;
      grid_n_lat = grid_n_lat.0;
      grid_n_lon = grid_n_lon.0;
      grid_cell_deg = f.div (f.lit cell_size_e5.0) (f.lit 100000);
      grid_offsets = grid_offsets.0;
      grid_node_ids = grid_node_ids.0;
    }
    if nat_beq magic.0 l1_magic && nat_beq fmt_ver.0 fmt_ver_expected then some graph else none
