-- ===== src/L1/Layout.antt =====
-- The layout of the overlay's file, written out independently of `decode_l1`.
use open_distance.Prelude.{
  ℕ, zero, suc, ◌+◌, ◌*◌, ◌<◌, ◌≡◌, refl, some, List, [], ◌∷◌, ◌++◌, map, length, All, arith,
  append_assoc,
}
use open_distance.Float.{Float}
use open_distance.Tiles.Layout.{u32, u16, u32s, Fits, IsArray, get_u32-u32, get_u16-u16, get_array}
use open_distance.L1.{L1Graph}
use open_distance.L1.Decode.{get_u16s, l1_magic, fmt_ver_expected, of_e7, decode_l1}

unfoldable pub u16s : List ℕ → List ℕ
u16s [] = []
u16s (n ∷ ns) = u16 n ++ u16s ns

-- an array of the given length whose numbers fit 16 bits
abbrev pub IsShortArray : ℕ → List ℕ → Type 0
IsShortArray k ns = (length ns ≡ k) × All (λ n. n < 65536) ns

get_short_array :
    (k : ℕ) (ns rest : List ℕ) → IsShortArray k ns → get_u16s k (u16s ns ++ rest) ≡ some (ns, rest)
unfolding get_u16s u16s
get_short_array zero [] rest h = refl
get_short_array (suc k) [] rest h = absurd (omega (arith, h.0))
get_short_array zero (n ∷ ns) rest h = absurd (omega (arith, h.0))
get_short_array (suc k) (n ∷ ns) rest h =
    let size = h.0 in
    rw
      (
        append_assoc (u16 n) (u16s ns) rest,
        get_u16-u16 n (u16s ns ++ rest) h.1.0,
        get_short_array k ns rest (omega arith, h.1.1),
      )
      refl

-- The overlay as it is written: floats as their bits, signed numbers as unsigned ones.
pub record RawGraph : Type 0 where
  pub n : ℕ
  pub m : ℕ
  pub grid_min_lat_e7 : ℕ
  pub grid_min_lon_e7 : ℕ
  pub grid_n_lat : ℕ
  pub grid_n_lon : ℕ
  pub cell_size_e5 : ℕ
  pub reserved : ℕ
  pub lat : List ℕ
  pub lon : List ℕ
  pub edge_offsets : List ℕ
  pub edge_targets : List ℕ
  pub edge_time_s : List ℕ
  pub edge_len_dam : List ℕ
  pub grid_offsets : List ℕ
  pub grid_node_ids : List ℕ

unfoldable pub graph_bytes : RawGraph → List ℕ
graph_bytes g =
    u32 l1_magic
    ++ (u32 fmt_ver_expected
        ++ (u32 g.n
            ++ (u32 g.m
                ++ (u32 g.grid_min_lat_e7
                    ++ (u32 g.grid_min_lon_e7
                        ++ (u32 g.grid_n_lat
                            ++ (u32 g.grid_n_lon
                                ++ (u32 g.cell_size_e5
                                    ++ (u32 g.reserved
                                        ++ (u32s g.lat
                                            ++ (u32s g.lon
                                                ++ (u32s g.edge_offsets
                                                    ++ (u32s g.edge_targets
                                                        ++ (u16s g.edge_time_s
                                                            ++ (u16s g.edge_len_dam
                                                            ++ (u32s g.grid_offsets
                                                            ++ (u32s g.grid_node_ids
                                                            ++ [])))))))))))))))))

-- The numbers fit their fields and the arrays have the lengths that the header gives.
pub record IsGraphLaidOut (g : RawGraph) : Type 0 where
  pub n : Fits g.n
  pub m : Fits g.m
  pub grid_min_lat_e7 : Fits g.grid_min_lat_e7
  pub grid_min_lon_e7 : Fits g.grid_min_lon_e7
  pub grid_n_lat : Fits g.grid_n_lat
  pub grid_n_lon : Fits g.grid_n_lon
  pub cell_size_e5 : Fits g.cell_size_e5
  pub reserved : Fits g.reserved
  pub lat : IsArray g.n g.lat
  pub lon : IsArray g.n g.lon
  pub edge_offsets : IsArray (g.n + 1) g.edge_offsets
  pub edge_targets : IsArray g.m g.edge_targets
  pub edge_time_s : IsShortArray g.m g.edge_time_s
  pub edge_len_dam : IsShortArray g.m g.edge_len_dam
  pub grid_offsets : IsArray (g.grid_n_lat * g.grid_n_lon + 1) g.grid_offsets
  pub grid_node_ids : IsArray g.n g.grid_node_ids

unfoldable pub graph_of : (f : Float) → RawGraph → L1Graph f
graph_of f g = record {
  n = g.n;
  m = g.m;
  lat = map f.of_bits g.lat;
  lon = map f.of_bits g.lon;
  edge_offsets = g.edge_offsets;
  edge_targets = g.edge_targets;
  edge_time_s = g.edge_time_s;
  edge_len_dam = g.edge_len_dam;
  grid_min_lat = of_e7 f g.grid_min_lat_e7;
  grid_min_lon = of_e7 f g.grid_min_lon_e7;
  grid_n_lat = g.grid_n_lat;
  grid_n_lon = g.grid_n_lon;
  grid_cell_deg = f.div (f.lit g.cell_size_e5) (f.lit 100000);
  grid_offsets = g.grid_offsets;
  grid_node_ids = g.grid_node_ids;
}

-- Decoding the bytes of an overlay of the expected version, whose numbers fit and whose arrays have
-- their lengths, gives the overlay.
pub decode_l1-graph_bytes :
    (f : Float) (g : RawGraph)
    → IsGraphLaidOut g
    → decode_l1 f (graph_bytes g) ≡ some (graph_of f g)
unfolding decode_l1 graph_bytes graph_of
decode_l1-graph_bytes f g h =
    rw
      (
        get_u32-u32 l1_magic _ (omega arith),
        get_u32-u32 fmt_ver_expected _ (omega arith),
        get_u32-u32 g.n _ h.n,
        get_u32-u32 g.m _ h.m,
        get_u32-u32 g.grid_min_lat_e7 _ h.grid_min_lat_e7,
        get_u32-u32 g.grid_min_lon_e7 _ h.grid_min_lon_e7,
        get_u32-u32 g.grid_n_lat _ h.grid_n_lat,
        get_u32-u32 g.grid_n_lon _ h.grid_n_lon,
        get_u32-u32 g.cell_size_e5 _ h.cell_size_e5,
        get_u32-u32 g.reserved _ h.reserved,
        get_array g.n g.lat _ h.lat,
        get_array g.n g.lon _ h.lon,
        get_array (g.n + 1) g.edge_offsets _ h.edge_offsets,
        get_array g.m g.edge_targets _ h.edge_targets,
        get_short_array g.m g.edge_time_s _ h.edge_time_s,
        get_short_array g.m g.edge_len_dam _ h.edge_len_dam,
        get_array (g.grid_n_lat * g.grid_n_lon + 1) g.grid_offsets _ h.grid_offsets,
        get_array g.n g.grid_node_ids [] h.grid_node_ids,
      )
      refl
