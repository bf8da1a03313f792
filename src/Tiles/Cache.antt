-- ===== src/Tiles/Cache.antt =====
-- src/tiles.ts, getTile and getTileBytes: the two caches of an isolate and the loads in flight.
-- A call runs up to its wait for the bucket (`get_tile`, `get_tile_bytes`), and the rest of the load
-- runs when the bucket has answered (`tile_loaded`, `bytes_loaded`); other calls may come between.
-- A file is the list of its bytes. `state.pending` holds a promise per key: one that still waits, or
-- one that has resolved to null and was not deleted.
use open_distance.Prelude.{ℕ, ◌≡◌, none, some, List, [], length, nat_eq}
use open_distance.Prelude.Dict.{lookup, insert, remove}
use open_distance.Float.{Float}
use open_distance.Tiles.{Tile}
use open_distance.Tiles.Decode.{decode}
use open_distance.Tiles.Lru.{Lru, lru_touch, touch_hit}

pub data Promise : Type 0 where
  loading missing : Promise

-- The module's variables.
pub record TileCache (f : Float) : Type 0 where
  pub cache : Lru (Tile f)
  pub pending : List (ℕ × Promise)
  pub bytes_cache : Lru (List ℕ)
  pub bytes_pending : List (ℕ × Promise)

-- What a call gives: the value, the promise of a load, or null.
pub data Answer (A : Type 0) : Type 0 where
  ready : A → Answer A
  waits starts null : Answer A

abbrev pub join : {A : Type 0} → Promise → Answer A
join loading = waits
join missing = null

-- What the bucket answers; `failed` is a throw.
pub data Fetched : Type 0 where
  absent failed : Fetched
  file : List ℕ → Fetched

abbrev pub tile_cache_byte_budget : ℕ
tile_cache_byte_budget = 50331648

abbrev pub bytes_cache_byte_budget : ℕ
bytes_cache_byte_budget = 33554432

module _ (f : Float) where
  abbrev pub tile_size : Tile f → ℕ
  tile_size t = t.bytes

  abbrev pub empty : TileCache f
  empty = record {
    cache = record { entries = []; bytes = 0 };
    pending = [];
    bytes_cache = record { entries = []; bytes = 0 };
    bytes_pending = [];
  }

  unfoldable pub get_tile : ℕ → TileCache f → TileCache f × Answer (Tile f)
  unfolding lookup insert touch_hit
  get_tile packed s = elim (lookup packed s.cache.entries) [
    | some hit ↦ (record s { cache = touch_hit packed hit s.cache }, ready hit)
    | none ↦ elim (lookup packed s.pending) [
      | some p ↦ (s, join p)
      | none ↦ (record s { pending = insert packed loading s.pending }, starts)
    ]
  ]

  -- The rest of a load of getTile, with its `catch`; the bytes go into their cache before `decode`.
  unfoldable pub tile_loaded : ℕ → Fetched → TileCache f → TileCache f
  unfolding insert remove lru_touch decode
  tile_loaded packed absent s = record s { pending = insert packed missing s.pending }
  tile_loaded packed failed s = record s { pending = remove packed s.pending }
  tile_loaded packed (file buf) s =
      let s' = record s {
        bytes_cache = lru_touch length bytes_cache_byte_budget packed buf s.bytes_cache;
        pending = remove packed s.pending;
      } in
      elim (decode f buf) [
        | none ↦ s'
        | some tile ↦ record s' {
          cache = lru_touch tile_size tile_cache_byte_budget packed tile s.cache;
        }
      ]

  unfoldable pub get_tile_bytes : ℕ → TileCache f → TileCache f × Answer (List ℕ)
  unfolding lookup insert touch_hit
  get_tile_bytes packed s = elim (lookup packed s.bytes_cache.entries) [
    | some hit ↦ (record s { bytes_cache = touch_hit packed hit s.bytes_cache }, ready hit)
    | none ↦ elim (lookup packed s.bytes_pending) [
      | some p ↦ (s, join p)
      | none ↦ (record s { bytes_pending = insert packed loading s.bytes_pending }, starts)
    ]
  ]

  unfoldable pub bytes_loaded : ℕ → Fetched → TileCache f → TileCache f
  unfolding insert remove lru_touch
  bytes_loaded packed absent s = record s { bytes_pending = insert packed missing s.bytes_pending }
  bytes_loaded packed failed s = record s { bytes_pending = remove packed s.bytes_pending }
  bytes_loaded packed (file buf) s = record s {
    bytes_cache = lru_touch length bytes_cache_byte_budget packed buf s.bytes_cache;
    bytes_pending = remove packed s.bytes_pending;
  }

  -- One event of the isolate: a call, or the answer to a load that waits.
  pub data Step (s : TileCache f) : TileCache f → Type 0 where
    asked : (packed : ℕ) → Step s (get_tile packed s).0
    bytes_asked : (packed : ℕ) → Step s (get_tile_bytes packed s).0
    answered :
        (packed : ℕ) (r : Fetched)
        → lookup packed s.pending ≡ some loading
        → Step s (tile_loaded packed r s)
    bytes_answered :
        (packed : ℕ) (r : Fetched)
        → lookup packed s.bytes_pending ≡ some loading
        → Step s (bytes_loaded packed r s)

  pub data Steps (s : TileCache f) : TileCache f → Type 0 where
    done : Steps s s
    next : {s' s'' : TileCache f} → Steps s s' → Step s' s'' → Steps s s''
