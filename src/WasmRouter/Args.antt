-- ===== src/WasmRouter/Args.antt =====
-- The argument buffer as its reader sees it: the header, the destinations, and the tiles' bytes cut
-- out of the whole buffer at the offsets of the manifest.
use open_distance.Prelude.{
  ◌>>=◌, ℕ, zero, suc, ◌+◌, ◌*◌, ◌≡◌, refl, sym, ap, ◌∙◌, Option, some, List, [], ◌∷◌, ◌++◌, length,
  take, drop, All, append_assoc, length-append, arith,
}
use open_distance.Tiles.Decode.{get_u32}
use open_distance.Tiles.Layout.{Fits}
use open_distance.WasmRouter.{
  MultiTileInput, RustNode, set_u32, header_len, write_dsts, write_manifest, tile_bytes, write_args,
}

unfoldable pub read_dsts : ℕ → List ℕ → Option (List RustNode × List ℕ)
unfolding get_u32
read_dsts zero buf = some ([], buf)
read_dsts (suc n) buf = do
  tile_id ← get_u32 buf
  dense ← get_u32 tile_id.1
  rest ← read_dsts n dense.1
  some (record { tile_id = tile_id.0; dense = dense.0 } ∷ rest.0, rest.1)

unfoldable pub read_tiles : List ℕ → ℕ → List ℕ → Option (List MultiTileInput)
unfolding get_u32
read_tiles args zero buf = some []
read_tiles args (suc n) buf = do
  tile_id ← get_u32 buf
  offset ← get_u32 tile_id.1
  size ← get_u32 offset.1
  rest ← read_tiles args n size.1
  some (record { tile_id = tile_id.0; bytes = take size.0 (drop offset.0 args) } ∷ rest)

pub record Args : Type 0 where
  pub src : RustNode
  pub settled_cap : ℕ
  pub dsts : List RustNode
  pub tiles : List MultiTileInput

unfoldable pub read_args : List ℕ → Option Args
unfolding get_u32 read_dsts read_tiles
read_args args = do
  tile_id ← get_u32 args
  dense ← get_u32 tile_id.1
  cap ← get_u32 dense.1
  n_dsts ← get_u32 cap.1
  n_tiles ← get_u32 n_dsts.1
  dsts ← read_dsts n_dsts.0 n_tiles.1
  tiles ← read_tiles args n_tiles.0 dsts.1
  some (record {
    src = record { tile_id = tile_id.0; dense = dense.0 };
    settled_cap = cap.0;
    dsts = dsts.0;
    tiles = tiles;
  })

get_u32-set_u32 : (n : ℕ) (rest : List ℕ) → Fits n → get_u32 (set_u32 n ++ rest) ≡ some (n, rest)
unfolding get_u32 set_u32
get_u32-set_u32 n rest h = ground arith

abbrev pub NodeFits : RustNode → Type 0
NodeFits d = Fits d.tile_id × Fits d.dense

read_dsts-write_dsts :
    (ds : List RustNode) (rest : List ℕ)
    → All NodeFits ds
    → read_dsts (length ds) (write_dsts ds ++ rest) ≡ some (ds, rest)
unfolding read_dsts write_dsts
read_dsts-write_dsts [] rest h = refl
read_dsts-write_dsts (d ∷ ds) rest ((id, dense), others) = rw (
  append_assoc (set_u32 d.tile_id) (set_u32 d.dense ++ write_dsts ds) rest,
  append_assoc (set_u32 d.dense) (write_dsts ds) rest,
  get_u32-set_u32 d.tile_id (set_u32 d.dense ++ (write_dsts ds ++ rest)) id,
  get_u32-set_u32 d.dense (write_dsts ds ++ rest) dense,
  read_dsts-write_dsts ds rest others,
)

take-append : (xs ys : List ℕ) → take (length xs) (xs ++ ys) ≡ xs
take-append [] ys = refl
take-append (x ∷ xs) ys = ap (λ l. x ∷ l) (take-append xs ys)

drop-append : (xs ys : List ℕ) → drop (length xs) (xs ++ ys) ≡ ys
drop-append [] ys = refl
drop-append (x ∷ xs) ys = drop-append xs ys

drop_nil : (n : ℕ) → ◌≡◌ {A = List ℕ} (drop n []) []
drop_nil zero = refl
drop_nil (suc n) = refl

drop_add : (m n : ℕ) (xs : List ℕ) → drop (m + n) xs ≡ drop n (drop m xs)
drop_add zero n xs = let plain : zero + n ≡ n = omega arith in rw plain
drop_add (suc m) n [] =
    let next : suc m + n ≡ suc (m + n) = omega arith in rw next (sym (drop_nil n))
drop_add (suc m) n (x ∷ xs) =
    let next : suc m + n ≡ suc (m + n) = omega arith in rw next (drop_add m n xs)

-- A tile whose bytes start at the cursor.
abbrev pub TilesFit : ℕ → List MultiTileInput → Type 0
TilesFit cursor [] = Unit
TilesFit cursor (t ∷ ts) =
    Fits t.tile_id × Fits cursor × Fits (length t.bytes) × TilesFit (cursor + length t.bytes) ts

read_tiles-write_manifest :
    (args rest : List ℕ) (cursor : ℕ) (ts : List MultiTileInput)
    → TilesFit cursor ts
    → drop cursor args ≡ tile_bytes ts
    → read_tiles args (length ts) (write_manifest cursor ts ++ rest) ≡ some ts
unfolding read_tiles write_manifest tile_bytes
read_tiles-write_manifest args rest cursor [] h here = refl
read_tiles-write_manifest args rest cursor (t ∷ ts) (id, start, size, others) here =
    let later : drop (cursor + length t.bytes) args ≡ tile_bytes ts =
      drop_add cursor (length t.bytes) args
      ∙ ap (drop (length t.bytes)) here
      ∙ drop-append t.bytes (tile_bytes ts) in
    let cut : take (length t.bytes) (drop cursor args) ≡ t.bytes =
      ap (take (length t.bytes)) here ∙ take-append t.bytes (tile_bytes ts) in
    let tail = write_manifest (cursor + length t.bytes) ts in
    rw (
      append_assoc (set_u32 t.tile_id) (set_u32 cursor ++ (set_u32 (length t.bytes) ++ tail)) rest,
      append_assoc (set_u32 cursor) (set_u32 (length t.bytes) ++ tail) rest,
      append_assoc (set_u32 (length t.bytes)) tail rest,
      get_u32-set_u32 t.tile_id (set_u32 cursor ++ (set_u32 (length t.bytes) ++ (tail ++ rest))) id,
      get_u32-set_u32 cursor (set_u32 (length t.bytes) ++ (tail ++ rest)) start,
      get_u32-set_u32 (length t.bytes) (tail ++ rest) size,
      read_tiles-write_manifest args rest (cursor + length t.bytes) ts others later,
      cut,
    )

length-set_u32 : (n : ℕ) (rest : List ℕ) → length (set_u32 n ++ rest) ≡ 4 + length rest
unfolding set_u32
length-set_u32 n rest = omega arith

length-write_dsts : (ds : List RustNode) → length (write_dsts ds) ≡ length ds * 8
unfolding write_dsts
length-write_dsts [] = refl
length-write_dsts (d ∷ ds) = omega (
  arith,
  length-set_u32 d.tile_id (set_u32 d.dense ++ write_dsts ds),
  length-set_u32 d.dense (write_dsts ds),
  length-write_dsts ds,
)

length-write_manifest :
    (cursor : ℕ) (ts : List MultiTileInput) → length (write_manifest cursor ts) ≡ length ts * 12
unfolding write_manifest
length-write_manifest cursor [] = refl
length-write_manifest cursor (t ∷ ts) =
    let tail = write_manifest (cursor + length t.bytes) ts in
    omega (
      arith,
      length-set_u32 t.tile_id (set_u32 cursor ++ (set_u32 (length t.bytes) ++ tail)),
      length-set_u32 cursor (set_u32 (length t.bytes) ++ tail),
      length-set_u32 (length t.bytes) tail,
      length-write_manifest (cursor + length t.bytes) ts,
    )

-- where the tiles' bytes start
abbrev pub bytes_start : List MultiTileInput → List RustNode → ℕ
bytes_start tiles dsts = header_len + length dsts * 8 + length tiles * 12

drop_five :
    (a b c d e : ℕ) (xs ys : List ℕ) (n : ℕ)
    → n ≡ length xs
    → drop
        (20 + n)
        (set_u32 a ++ (set_u32 b ++ (set_u32 c ++ (set_u32 d ++ (set_u32 e ++ (xs ++ ys))))))
      ≡ ys
unfolding set_u32
drop_five a b c d e xs ys n h = rw (h, drop_add 20 (length xs)) (drop-append xs ys)

write_args-drop :
    (tiles : List MultiTileInput) (src : RustNode) (dsts : List RustNode) (cap : ℕ)
    → drop (bytes_start tiles dsts) (write_args tiles src dsts cap) ≡ tile_bytes tiles
unfolding write_args
write_args-drop tiles src dsts cap =
    let start = bytes_start tiles dsts in
    let size : length dsts * 8 + length tiles * 12
        ≡ length (write_dsts dsts ++ write_manifest start tiles) =
      omega (
        arith,
        length-append (write_dsts dsts) (write_manifest start tiles),
        length-write_dsts dsts,
        length-write_manifest start tiles,
      ) in
    let split : start ≡ 20 + (length dsts * 8 + length tiles * 12) = omega arith in
    let regrouped : write_args tiles src dsts cap
        ≡ set_u32 src.tile_id
          ++ (set_u32 src.dense
              ++ (set_u32 cap
                  ++ (set_u32 (length dsts)
                      ++ (set_u32 (length tiles)
                          ++ ((write_dsts dsts ++ write_manifest start tiles)
                              ++ tile_bytes tiles))))) =
      rw
        (append_assoc (write_dsts dsts) (write_manifest start tiles) (tile_bytes tiles), write_args)
        refl in
    ap (λ n. drop n (write_args tiles src dsts cap)) split
    ∙ ap (drop (20 + (length dsts * 8 + length tiles * 12))) regrouped
    ∙ drop_five src.tile_id src.dense cap (length dsts) (length tiles)
        (write_dsts dsts ++ write_manifest start tiles) (tile_bytes tiles) _ size

read_args-parts :
    (args manifest : List ℕ) (tiles : List MultiTileInput) (src : RustNode) (dsts : List RustNode)
    (settled_cap : ℕ)
    → NodeFits src
    → Fits settled_cap
    → Fits (length dsts)
    → Fits (length tiles)
    → All NodeFits dsts
    → args
      ≡ set_u32 src.tile_id
        ++ (set_u32 src.dense
            ++ (set_u32 settled_cap
                ++ (set_u32 (length dsts)
                    ++ (set_u32 (length tiles) ++ (write_dsts dsts ++ manifest)))))
    → read_tiles args (length tiles) manifest ≡ some tiles
    → read_args args
      ≡ some (record { src = src; settled_cap = settled_cap; dsts = dsts; tiles = tiles })
unfolding read_args
read_args-parts args manifest tiles src dsts settled_cap (id, dense) cap_fits n_dsts n_tiles nodes
      written cut =
    let body = write_dsts dsts ++ manifest in
    let first = ap get_u32 written ∙ get_u32-set_u32 src.tile_id _ id in
    rw (
      first,
      get_u32-set_u32 src.dense
          (set_u32 settled_cap ++ (set_u32 (length dsts) ++ (set_u32 (length tiles) ++ body)))
          dense,
      get_u32-set_u32 settled_cap (set_u32 (length dsts) ++ (set_u32 (length tiles) ++ body))
          cap_fits,
      get_u32-set_u32 (length dsts) (set_u32 (length tiles) ++ body) n_dsts,
      get_u32-set_u32 (length tiles) body n_tiles,
      read_dsts-write_dsts dsts manifest nodes,
      cut,
    )

-- Where all numbers fit 32 bits, the reader gets back from the argument buffer the source, the cap, the
-- destinations in their order, and each tile with its bytes.
pub read_args-write_args :
    (tiles : List MultiTileInput) (src : RustNode) (dsts : List RustNode) (settled_cap : ℕ)
    → NodeFits src
    → Fits settled_cap
    → Fits (length dsts)
    → Fits (length tiles)
    → All NodeFits dsts
    → TilesFit (bytes_start tiles dsts) tiles
    → read_args (write_args tiles src dsts settled_cap)
      ≡ some (record { src = src; settled_cap = settled_cap; dsts = dsts; tiles = tiles })
unfolding write_args
read_args-write_args tiles src dsts settled_cap node cap_fits n_dsts n_tiles nodes fit =
    read_args-parts (write_args tiles src dsts settled_cap)
      (write_manifest (bytes_start tiles dsts) tiles ++ tile_bytes tiles) tiles src dsts settled_cap
      node cap_fits n_dsts n_tiles nodes refl
      (read_tiles-write_manifest (write_args tiles src dsts settled_cap) (tile_bytes tiles)
        (bytes_start tiles dsts) tiles fit (write_args-drop tiles src dsts settled_cap))
