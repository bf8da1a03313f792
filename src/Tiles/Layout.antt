-- ===== src/Tiles/Layout.antt =====
-- The layout of a tile file, written out independently of `decode`.
use open_distance.Prelude.{
  ℕ, zero, suc, ◌+◌, ◌*◌, ◌/◌, ◌%◌, ◌<◌, ◌≡◌, refl, some, List, [], ◌∷◌, ◌++◌, map, length, All,
  arith, append_assoc,
}
use open_distance.Float.{Float}
use open_distance.Tiles.{Tile}
use open_distance.Tiles.Decode.{get_u32, get_u16, get_u32s, signed32, tile_magic, decode}

-- the bytes of a 32-bit number, lowest first
unfoldable pub u32 : ℕ → List ℕ
u32 n = n % 256 ∷ n / 256 % 256 ∷ n / 65536 % 256 ∷ n / 16777216 % 256 ∷ []

unfoldable pub u16 : ℕ → List ℕ
u16 n = n % 256 ∷ n / 256 % 256 ∷ []

unfoldable pub u32s : List ℕ → List ℕ
u32s [] = []
u32s (n ∷ ns) = u32 n ++ u32s ns

abbrev pub Fits : ℕ → Type 0
Fits n = n < 4294967296

pub get_u32-u32 : (n : ℕ) (rest : List ℕ) → Fits n → get_u32 (u32 n ++ rest) ≡ some (n, rest)
unfolding get_u32 u32
get_u32-u32 n rest h = ground arith

pub get_u16-u16 : (n : ℕ) (rest : List ℕ) → n < 65536 → get_u16 (u16 n ++ rest) ≡ some (n, rest)
unfolding get_u16 u16
get_u16-u16 n rest h = ground arith

get_u32s-u32s :
    (k : ℕ) (ns rest : List ℕ)
    → length ns ≡ k
    → All Fits ns
    → get_u32s k (u32s ns ++ rest) ≡ some (ns, rest)
unfolding get_u32s u32s
get_u32s-u32s zero [] rest size h = refl
get_u32s-u32s (suc k) [] rest size h = absurd (omega arith)
get_u32s-u32s zero (n ∷ ns) rest size h = absurd (omega arith)
get_u32s-u32s (suc k) (n ∷ ns) rest size h =
    rw
      (
        append_assoc (u32 n) (u32s ns) rest,
        get_u32-u32 n (u32s ns ++ rest) h.0,
        get_u32s-u32s k ns rest (omega arith) h.1,
      )
      refl

-- A tile as it is written: floats as their bits, coordinates as unsigned 32-bit numbers.
pub record RawTile : Type 0 where
  pub tx : ℕ
  pub ty : ℕ
  pub n_local : ℕ
  pub n_extern : ℕ
  pub m_edges : ℕ
  pub grid_n_lon : ℕ
  pub grid_n_lat : ℕ
  pub local_lat : List ℕ
  pub local_lon : List ℕ
  pub extern_packed : List ℕ
  pub extern_dense : List ℕ
  pub edge_offsets : List ℕ
  pub edge_targets : List ℕ
  pub edge_time_s : List ℕ
  pub edge_len_m : List ℕ
  pub grid_offsets : List ℕ
  pub grid_node_ids : List ℕ

-- the arrays, in the order of the file
unfoldable pub array_bytes : RawTile → List ℕ
array_bytes t =
    u32s t.local_lat
    ++ (u32s t.local_lon
        ++ (u32s t.extern_packed
            ++ (u32s t.extern_dense
                ++ (u32s t.edge_offsets
                    ++ (u32s t.edge_targets
                        ++ (u32s t.edge_time_s
                            ++ (u32s t.edge_len_m
                                ++ (u32s t.grid_offsets ++ (u32s t.grid_node_ids ++ [])))))))))

-- the whole file, with any version number
unfoldable pub file_bytes : ℕ → RawTile → List ℕ
unfolding array_bytes
file_bytes version t =
    u32 tile_magic
    ++ (u32 version
        ++ (u32 t.tx
            ++ (u32 t.ty
                ++ (u32 t.n_local
                    ++ (u32 t.n_extern
                        ++ (u32 t.m_edges
                            ++ (u16 t.grid_n_lon ++ (u16 t.grid_n_lat ++ array_bytes t))))))))

-- an array of the given length whose numbers fit
abbrev pub IsArray : ℕ → List ℕ → Type 0
IsArray k ns = (length ns ≡ k) × All Fits ns

-- The numbers fit their fields and the arrays have the lengths that the header gives.
pub record IsLaidOut (t : RawTile) : Type 0 where
  pub tx : Fits t.tx
  pub ty : Fits t.ty
  pub n_local : Fits t.n_local
  pub n_extern : Fits t.n_extern
  pub m_edges : Fits t.m_edges
  pub grid_n_lon : t.grid_n_lon < 65536
  pub grid_n_lat : t.grid_n_lat < 65536
  pub local_lat : IsArray t.n_local t.local_lat
  pub local_lon : IsArray t.n_local t.local_lon
  pub extern_packed : IsArray t.n_extern t.extern_packed
  pub extern_dense : IsArray t.n_extern t.extern_dense
  pub edge_offsets : IsArray (t.n_local + 1) t.edge_offsets
  pub edge_targets : IsArray t.m_edges t.edge_targets
  pub edge_time_s : IsArray t.m_edges t.edge_time_s
  pub edge_len_m : IsArray t.m_edges t.edge_len_m
  pub grid_offsets : IsArray (t.grid_n_lon * t.grid_n_lat + 1) t.grid_offsets
  pub grid_node_ids : IsArray t.n_local t.grid_node_ids

-- the tile that a file stands for
unfoldable pub tile_of : (f : Float) → ℕ → RawTile → Tile f
unfolding signed32
tile_of f bytes t = record {
  tx = signed32 t.tx;
  ty = signed32 t.ty;
  n_local = t.n_local;
  n_extern = t.n_extern;
  m_edges = t.m_edges;
  grid_n_lon = t.grid_n_lon;
  grid_n_lat = t.grid_n_lat;
  local_lat = map f.of_bits t.local_lat;
  local_lon = map f.of_bits t.local_lon;
  extern_packed = t.extern_packed;
  extern_dense = t.extern_dense;
  edge_offsets = t.edge_offsets;
  edge_targets = t.edge_targets;
  edge_time_s = map f.of_bits t.edge_time_s;
  edge_len_m = map f.of_bits t.edge_len_m;
  grid_offsets = t.grid_offsets;
  grid_node_ids = t.grid_node_ids;
  bytes = bytes;
}

pub get_array :
    (k : ℕ) (ns rest : List ℕ) → IsArray k ns → get_u32s k (u32s ns ++ rest) ≡ some (ns, rest)
get_array k ns rest h = get_u32s-u32s k ns rest h.0 h.1

-- Decoding the bytes of a tile whose numbers fit and whose arrays have their lengths gives the
-- tile, whatever the version number is.
pub decode-file_bytes :
    (f : Float) (version : ℕ) (t : RawTile)
    → version < 4294967296
    → IsLaidOut t
    → decode f (file_bytes version t) ≡ some (tile_of f (length (file_bytes version t)) t)
unfolding decode file_bytes array_bytes tile_of signed32
decode-file_bytes f version t fits h =
    rw
      (
        get_u32-u32 tile_magic _ (omega arith),
        get_u32-u32 version _ fits,
        get_u32-u32 t.tx _ h.tx,
        get_u32-u32 t.ty _ h.ty,
        get_u32-u32 t.n_local _ h.n_local,
        get_u32-u32 t.n_extern _ h.n_extern,
        get_u32-u32 t.m_edges _ h.m_edges,
        get_u16-u16 t.grid_n_lon _ h.grid_n_lon,
        get_u16-u16 t.grid_n_lat _ h.grid_n_lat,
        get_array t.n_local t.local_lat _ h.local_lat,
        get_array t.n_local t.local_lon _ h.local_lon,
        get_array t.n_extern t.extern_packed _ h.extern_packed,
        get_array t.n_extern t.extern_dense _ h.extern_dense,
        get_array (t.n_local + 1) t.edge_offsets _ h.edge_offsets,
        get_array t.m_edges t.edge_targets _ h.edge_targets,
        get_array t.m_edges t.edge_time_s _ h.edge_time_s,
        get_array t.m_edges t.edge_len_m _ h.edge_len_m,
        get_array (t.grid_n_lon * t.grid_n_lat + 1) t.grid_offsets _ h.grid_offsets,
        get_array t.n_local t.grid_node_ids [] h.grid_node_ids,
      )
      refl
