-- ===== src/WasmRouter.antt =====
-- src/wasm_router.ts: dijkstraOneToMany, the call of the compiled router. The argument buffer is the
-- list of its bytes; the compiled code takes it and answers the settled nodes and, at each offset of
-- the result buffer, the 32-bit number there.
pub mod Args
use open_distance.Prelude.{ℕ, zero, suc, ◌+◌, ◌*◌, ◌/◌, ◌%◌, Bool, List, [], ◌∷◌, ◌++◌, length}
use open_distance.Float.{Float}

pub record MultiTileInput : Type 0 where
  pub tile_id : ℕ
  pub bytes : List ℕ

pub record RustNode : Type 0 where
  pub tile_id : ℕ
  pub dense : ℕ

pub record OneToManyResult (f : Float) : Type 0 where
  pub time_s : f.R
  pub len_m : f.R
  pub ok : Bool

-- the compiled function
abbrev pub Compiled : Float → Type 0
Compiled f = List ℕ → ℕ × (ℕ → f.R)

-- `setUint32` at consecutive offsets, lowest byte first
unfoldable pub set_u32 : ℕ → List ℕ
set_u32 n = n % 256 ∷ n / 256 % 256 ∷ n / 65536 % 256 ∷ n / 16777216 % 256 ∷ []

abbrev pub header_len : ℕ
header_len = 20

unfoldable pub write_dsts : List RustNode → List ℕ
write_dsts [] = []
write_dsts (d ∷ ds) = set_u32 d.tile_id ++ (set_u32 d.dense ++ write_dsts ds)

-- The entries of the tiles, whose bytes start at `bytes_cursor`.
unfoldable pub write_manifest : ℕ → List MultiTileInput → List ℕ
write_manifest bytes_cursor [] = []
write_manifest bytes_cursor (t ∷ ts) =
    set_u32 t.tile_id
    ++ (set_u32 bytes_cursor
        ++ (set_u32 (length t.bytes) ++ write_manifest (bytes_cursor + length t.bytes) ts))

unfoldable pub tile_bytes : List MultiTileInput → List ℕ
tile_bytes [] = []
tile_bytes (t ∷ ts) = t.bytes ++ tile_bytes ts

-- the argument buffer
unfoldable pub write_args : List MultiTileInput → RustNode → List RustNode → ℕ → List ℕ
unfolding write_dsts write_manifest tile_bytes
write_args tiles src dsts settled_cap =
    let bytes_start = header_len + length dsts * 8 + length tiles * 12 in
    set_u32 src.tile_id
    ++ (set_u32 src.dense
        ++ (set_u32 settled_cap
            ++ (set_u32 (length dsts)
                ++ (set_u32 (length tiles)
                    ++ (write_dsts dsts
                        ++ (write_manifest bytes_start tiles ++ tile_bytes tiles))))))

module _ (f : Float) where
  -- the results from index `i` on
  unfoldable pub read_results : (ℕ → f.R) → ℕ → List RustNode → List (OneToManyResult f)
  read_results out i [] = []
  read_results out i (d ∷ ds) =
      record { time_s = out (i * 8); len_m = out (i * 8 + 4); ok = f.is_finite (out (i * 8)) }
      ∷ read_results out (suc i) ds

  unfoldable pub dijkstra_one_to_many :
      Compiled f → List MultiTileInput → RustNode → List RustNode → ℕ → ℕ × List (OneToManyResult f)
  unfolding write_args read_results
  dijkstra_one_to_many compiled tiles src dsts settled_cap =
      let (settled, out) = compiled (write_args tiles src dsts settled_cap) in
      (settled, read_results out 0 dsts)
