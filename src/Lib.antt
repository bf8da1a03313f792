-- ===== src/Lib.antt =====
-- open-distance is a distance-matrix service that runs on Cloudflare Workers. A request names
-- origins and destinations; the worker counts its elements, asks two limiters (one object per
-- client address, one for the whole account), finds the addresses' coordinates, snaps them to
-- nodes of a road graph that is cut into tiles, and searches from each origin to its
-- destinations. Pairs that are far apart go to an object that holds a highway overlay.
--
-- The files and the code they are about (paths from the repository's root):
--   Prelude, Text, Number, Float: what the models share. Strings are lists of code units, a
--     `Map` is a list of entries in insertion order, limits are numbers that may be negative or
--     NaN, and doubles are the record `Float` of their operations, a parameter.
--   RateLimit, RateLimit/Limiter: src/ratelimit.ts (computeTiers, evaluateTiers) and
--     src/ratelimiter_do.ts (RateLimiter.check). RateLimit/Decision and RateLimit/Budget: proofs.
--   GlobalLimit: src/global_limiter_do.ts (GlobalLimiter.check). GlobalLimit/Budget: proofs.
--   Geo: src/geo.ts (haversineMeters).
--   Heap: the class MinHeap of src/router.ts and src/l1_graph.ts (push, popInto).
--   Tiles, Tiles/Decode, Tiles/Lru, Tiles/Cache: src/tiles.ts (packTileId, unpackTileId; decode;
--     lruTouch, bytesLruTouch; getTile, getTileBytes). Tiles/Ids, Tiles/Layout, Tiles/Accounts,
--     Tiles/Missing, Tiles/Budgets: proofs.
--   Snap, Snap/Best: src/tiles.ts (tileOf, snapInTile, snapK, snap). Snap/Order, Snap/Chosen: proofs.
--   Router, Router/Groups: src/router.ts (oneToMany; its index of the destinations' nodes).
--     Router/Paths to Router/Twins: proofs.
--   L1, L1/Decode, L1/Snap: src/l1_graph.ts (bidirAStarL1, decodeL1, snapL1). L1/Layout, L1/Walks,
--     L1/Sound, L1/Route: proofs.
--   L1Router: src/l1_router.ts (getGraph, status, route, fetch). L1Router/Answers: proofs.
--   Config: src/config.ts and the readers of the environment in src/ratelimit.ts and
--     src/global_limiter_do.ts.
--   Responses: the headers and responses of src/ratelimit.ts and src/index.ts, and the fetch
--     handlers of the two limiters' objects. Responses/Tightest: proofs.
--   Elements: src/elements.ts (splitMulti, countElements). Elements/Segments: proofs.
--   Normalize: src/normalize.ts (normalizeQuery, hasHouseNumber). Normalize/Tokens: proofs.
--   Decimal: the language's `String` and `parseInt` on whole numbers. Decimal/RoundTrip: proofs.
--   Format: src/format.ts (formatDistance, formatDuration).
--   State, State/Tables: src/state_parser.ts (parseState). State/Names: proofs.
--   Interpolate: src/interpolate.ts (parseHouseAndStreet, interpolateFromSegments).
--     Interpolate/Streets: proofs.
--   Geocode, Geocode/Coords, Geocode/Query: src/geocode.ts (the results, COORD_RE, geocode).
--     Geocode/Kept: proofs.
--   Matrix, Matrix/Groups, Matrix/Row, Matrix/Handler: src/distancematrix.ts (cachePolicyFor,
--     resolveAll and the leg cache; which destinations go to which router; the elements of an
--     origin; handleDistanceMatrix). Matrix/Wasm: wasmAutoOk and tryWasmMatrix, and the handler
--     with them. Matrix/Wired: the services of the endpoint, filled by the other parts.
--     Matrix/Keys to Matrix/Again, Matrix/Wasm/Shaped: proofs.
--   WasmRouter: src/wasm_router.ts (dijkstraOneToMany). WasmRouter/Args: proofs.
--   Gate: the gates of the distance-matrix branch of dispatch in src/index.ts. Gate/Charges: proofs.
--   Dispatch, Dispatch/Overlay, Dispatch/Serve: src/index.ts (fetch, withCors,
--     dispatch), healthCheck and the headers of handleCoverage of src/distancematrix.ts, and
--     htmlHeaders of src/site.ts. Dispatch/Replies: proofs.
--   Tests: concrete inputs.
--
-- Objects are explicit states: a limiter's check takes the state and returns the new one, the
-- searches pass a record of the variables that their loops change. Loads that other calls may come
-- between are events of a step relation (Tiles/Cache, L1Router). The asynchronous loads of one
-- search happen one after the other, so the tile loader is a function; the clock against the
-- deadline is a test on the number of settled nodes. The loops of the two searches run on fuel
-- and answer `none` when it runs out: more than the cap of settled nodes times the edges of a node
-- is enough for the first (Router/Fuel), and the second has no such bound proved. The
-- loops of the heap run on as much fuel as there are entries.
--
-- In Gate a limiter that faults has not counted the request.
--
-- A request is one on which no call of a service rejects, but for the rejections that the code
-- catches: handleDistanceMatrix has no `catch` for a failed read of a bucket or a store or for a tile
-- that does not decode, and what the platform answers then is outside the models. For the probe of the
-- endpoint, where dispatch catches it, it is an input (`probe_rejects`). The limits that Config reads
-- are whole numbers or NaN; the cap on a request is read from any number.
--
-- Not modelled: HTTP plumbing, the texts of the site's pages, the generated panel data, the Rust router, the
-- pipeline that builds the data, and the services of the platform (R2, D1, Durable Objects).
pub mod Prelude
pub mod Text
pub mod Number
pub mod RateLimit
pub mod GlobalLimit
pub mod Float
pub mod Geo
pub mod Heap
pub mod Tiles
pub mod Router
pub mod L1
pub mod Tests
pub mod Snap
pub mod L1Router
pub mod Elements
pub mod Gate
pub mod Dispatch
pub mod Config
pub mod Responses
pub mod Normalize
pub mod Decimal
pub mod Format
pub mod Geocode
pub mod State
pub mod Interpolate
pub mod WasmRouter
pub mod Matrix
