-- ===== src/Tiles/Decode.antt =====
-- src/tiles.ts, decode: a tile from the bytes of its file. A read past the end and a wrong magic
-- number, which throw, give `none`. All numbers are little-endian.
use open_distance.Prelude.{
  ◌>>=◌, ℕ, zero, suc, ◌+◌, ◌*◌, Option, none, some, List, [], ◌∷◌, map, if◌then◌else◌, nat_beq,
  leb, length,
}
use open_distance.Prelude.Int.{ℤ, sub_ℕ}
use open_distance.Float.{Float}
use open_distance.Tiles.{Tile}

-- what a read gives, and the bytes behind it
abbrev pub Read : Type 0 → Type 0
Read A = Option (A × List ℕ)

unfoldable pub get_u32 : List ℕ → Read ℕ
get_u32 (a ∷ b ∷ c ∷ d ∷ rest) = some (a + b * 256 + c * 65536 + d * 16777216, rest)
get_u32 _ = none

unfoldable pub get_u16 : List ℕ → Read ℕ
get_u16 (a ∷ b ∷ rest) = some (a + b * 256, rest)
get_u16 _ = none

-- 32 bits as a signed number
unfoldable pub signed32 : ℕ → ℤ
signed32 n = if leb 0x80000000 n then sub_ℕ n 0x100000000 else ℤ.pos n

-- a `Uint32Array` of the given length
unfoldable pub get_u32s : ℕ → List ℕ → Read (List ℕ)
unfolding get_u32
get_u32s zero buf = some ([], buf)
get_u32s (suc n) buf = do x ← get_u32 buf; xs ← get_u32s n x.1; some (x.0 ∷ xs.0, xs.1)

abbrev pub tile_magic : ℕ
tile_magic = 0x30544848

unfoldable pub decode : (f : Float) → List ℕ → Option (Tile f)
unfolding get_u32 get_u16 get_u32s signed32
decode f buf = do
  magic ← get_u32 buf
  version ← get_u32 magic.1
  tx ← get_u32 version.1
  ty ← get_u32 tx.1
  n_local ← get_u32 ty.1
  n_extern ← get_u32 n_local.1
  m_edges ← get_u32 n_extern.1
  grid_n_lon ← get_u16 m_edges.1
  grid_n_lat ← get_u16 grid_n_lon.1
  local_lat ← get_u32s n_local.0 grid_n_lat.1
  local_lon ← get_u32s n_local.0 local_lat.1
  extern_packed ← get_u32s n_extern.0 local_lon.1
  extern_dense ← get_u32s n_extern.0 extern_packed.1
  edge_offsets ← get_u32s (n_local.0 + 1) extern_dense.1
  edge_targets ← get_u32s m_edges.0 edge_offsets.1
  edge_time_s ← get_u32s m_edges.0 edge_targets.1
  edge_len_m ← get_u32s m_edges.0 edge_time_s.1
  grid_offsets ← get_u32s (grid_n_lon.0 * grid_n_lat.0 + 1) edge_len_m.1
  grid_node_ids ← get_u32s n_local.0 grid_offsets.1
  let tile : Tile f = record {
    tx = signed32 tx.0;
    ty = signed32 ty.0;
    n_local = n_local.0;
    n_extern = n_extern.0;
    m_edges = m_edges.0;
    grid_n_lon = grid_n_lon.0;
    grid_n_lat = grid_n_lat.0;
    local_lat = map f.of_bits local_lat.0;
    local_lon = map f.of_bits local_lon.0;
    extern_packed = extern_packed.0;
    extern_dense = extern_dense.0;
    edge_offsets = edge_offsets.0;
    edge_targets = edge_targets.0;
    edge_time_s = map f.of_bits edge_time_s.0;
    edge_len_m = map f.of_bits edge_len_m.0;
    grid_offsets = grid_offsets.0;
    grid_node_ids = grid_node_ids.0;
    bytes = length buf;
  }
  if nat_beq magic.0 tile_magic then some tile else none
