-- ===== src/Tiles.antt =====
-- src/tiles.ts: tile ids, and the decoded tile.
pub mod Ids
pub mod Lru
pub mod Accounts
pub mod Decode
pub mod Layout
pub mod Cache
pub mod Missing
pub mod Budgets
use open_distance.Prelude.{ℕ, suc, ◌+◌, ◌-◌, ◌*◌, ◌/◌, ◌%◌, List, if◌then◌else◌, ltb, leb}
use open_distance.Prelude.Int.{ℤ, sub_ℕ}
use open_distance.Float.{Float}

-- `x & 0xffff` of an integer
unfoldable pub low16 : ℤ → ℕ
low16 (ℤ.pos n) = n % 65536
low16 (ℤ.negsuc n) = 65535 - n % 65536

-- The two halves have no bit in common, so `|` is their sum, and it is not negative.
unfoldable pub pack_tile_id : ℤ → ℤ → ℕ
unfolding low16
pack_tile_id tx ty = low16 tx * 65536 + low16 ty

-- the sign of a 16-bit half
unfoldable pub signed16 : ℕ → ℤ
signed16 h = if leb 0x8000 h then sub_ℕ h 0x10000 else ℤ.pos h

-- `packed` is an unsigned 32-bit number
unfoldable pub unpack_tile_id : ℕ → ℤ × ℤ
unfolding signed16
unpack_tile_id packed = (signed16 (packed / 65536 % 65536), signed16 (packed % 65536))

-- A decoded tile. Its typed arrays are lists; `bytes` is the size that the cache accounts for.
pub record Tile (f : Float) : Type 0 where
  pub tx : ℤ
  pub ty : ℤ
  pub n_local : ℕ
  pub n_extern : ℕ
  pub m_edges : ℕ
  pub grid_n_lon : ℕ
  pub grid_n_lat : ℕ
  pub local_lat : List f.R
  pub local_lon : List f.R
  pub extern_packed : List ℕ
  pub extern_dense : List ℕ
  pub edge_offsets : List ℕ
  pub edge_targets : List ℕ
  pub edge_time_s : List f.R
  pub edge_len_m : List f.R
  pub grid_offsets : List ℕ
  pub grid_node_ids : List ℕ
  pub bytes : ℕ
