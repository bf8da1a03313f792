-- ===== src/Tests/Compiled.antt =====
-- The endpoint with the compiled router, and the argument buffer.
use open_distance.Prelude.{
  ℕ, ◌≡◌, refl, Option, none, some, List, [], ◌∷◌, nat_beq, if◌then◌else◌, arith,
}
use open_distance.Prelude.Int.{ℤ, ◌+ℤ◌}
use open_distance.Text.{codes}
use open_distance.Elements.{split_multi}
use open_distance.WasmRouter.{MultiTileInput, RustNode, Compiled, write_args}
use open_distance.WasmRouter.Args.{read_args, read_args-write_args}
use open_distance.Matrix.{routed, not_found}
use open_distance.Matrix.Handler.{Query, matrix, MatrixResponse}
use open_distance.Matrix.Answers.{Fits}
use open_distance.Matrix.Wasm.{endpoint}
use open_distance.Matrix.Wasm.Shaped.{endpoint-Fits}
use open_distance.Tests.Numbers.{whole}
use open_distance.Tests.Matrices.{services, environment, same_case}

abbrev pub one_leg : Compiled whole
one_leg args = (2, λ offset. if nat_beq offset 0 then 3 else 50)

abbrev pub no_bytes : ℤ → ℤ → Option (List ℕ)
no_bytes tx ty = none

abbrev pub query : Query
query = record {
  origins = some (codes "a");
  destinations = some (codes "b|c");
  units = some (codes "metric");
  router = some (codes "wasm");
}

abbrev pub answer : MatrixResponse
answer = record {
  body =
      matrix (codes "40" ∷ []) (codes "40" ∷ codes "c" ∷ []) (codes "coords" ∷ [])
        (codes "coords" ∷ [] ∷ [])
        ((routed (ℤ.pos 50) (ℤ.pos 3) (codes "50 m") (codes "3 secs") ∷ not_found ∷ []) ∷ [])
        (codes "v") (codes "v");
  cache_control = some (codes "no-store");
  router_headers =
      (codes "x-od-router-impl", codes "wasm-one-to-many")
      ∷ (codes "x-od-router-settled", codes "2")
      ∷ (codes "x-od-router-tiles", codes "0")
      ∷ [];
}

run : endpoint whole services environment no_bytes one_leg same_case 20 query [] ≡ some ([], answer)
unfolding endpoint ◌+ℤ◌
run = refl

endpoint-Fits_example : Fits 1 2 4 answer.body
unfolding split_multi
endpoint-Fits_example =
    endpoint-Fits whole services environment no_bytes one_leg same_case 20 query [] [] answer run

abbrev tiles : List MultiTileInput
tiles = record { tile_id = 5; bytes = 1 ∷ 2 ∷ 3 ∷ [] } ∷ record { tile_id = 6; bytes = 9 ∷ [] } ∷ []

abbrev source : RustNode
source = record { tile_id = 5; dense = 70000 }

abbrev dests : List RustNode
dests = record { tile_id = 6; dense = 1 } ∷ []

read_args-write_args_example :
    read_args (write_args tiles source dests 500000)
    ≡ some (record { src = source; settled_cap = 500000; dsts = dests; tiles = tiles })
read_args-write_args_example =
    read_args-write_args tiles source dests 500000 (omega arith, omega arith) (omega arith)
      (omega arith) (omega arith) ((omega arith, omega arith), tt)
      (omega arith, omega arith, omega arith, (omega arith, omega arith, omega arith, tt))
