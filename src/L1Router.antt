-- ===== src/L1Router.antt =====
-- src/l1_router.ts: the object that holds the overlay. A call (`fetch_l1`) runs up to its wait for the
-- file (`get_graph`); the rest of the load runs when the bucket has answered (`graph_loaded`). Times of
-- the clock in the answers are left out.
pub mod Answers
use open_distance.Prelude.{ℕ, ◌≡◌, Bool, true, false, Option, none, some, List, if◌then◌else◌}
use open_distance.Text.{Text, text_eq, codes}
use open_distance.Float.{Float}
use open_distance.L1.{L1Graph, bidir_a_star_l1}
use open_distance.L1.Decode.{decode_l1}
use open_distance.L1.Snap.{L1Snap, snap_l1}

pub record L1RouteRequest (f : Float) : Type 0 where
  pub src_lat : f.R
  pub src_lon : f.R
  pub dst_lat : f.R
  pub dst_lon : f.R
  pub settled_cap : Option ℕ

-- the `reason` of an answer that is not ok
pub data Reason : Type 0 where
  load_failed src_snap_failed dst_snap_failed no_path : Reason

-- An answer with `ok` true, or one with a reason.
pub data L1RouteResponse (f : Float) : Type 0 where
  routed : (time_s len_m settled : ℕ) (src_snap_dist_m dst_snap_dist_m : f.R) → L1RouteResponse f
  refused : Reason → L1RouteResponse f

-- `loadPromise` when it is not null: it waits, or it was rejected.
pub data LoadPromise : Type 0 where
  loading rejected : LoadPromise

pub record L1Router (f : Float) : Type 0 where
  pub graph : Option (L1Graph f)
  pub load_promise : Option LoadPromise

pub data GraphAnswer (f : Float) : Type 0 where
  ready : L1Graph f → GraphAnswer f
  waits starts throws : GraphAnswer f

-- What `fetch_l1` replies: the status, the answer of `route`, a rejected parse of the body, or 404.
pub data L1Reply (f : Float) : Type 0 where
  reported : Option (ℕ × ℕ) → L1Reply f
  told : Option (L1RouteResponse f) → L1Reply f
  unread unknown_path : L1Reply f

module _ (f : Float) where
  abbrev pub fresh : L1Router f
  fresh = record { graph = none; load_promise = none }

  abbrev pub join : LoadPromise → GraphAnswer f
  join loading = waits
  join rejected = throws

  unfoldable pub get_graph : L1Router f → L1Router f × GraphAnswer f
  get_graph s = elim s.graph [
    | some g ↦ (s, ready g)
    | none ↦ elim s.load_promise [
      | some p ↦ (s, join p)
      | none ↦ (record s { load_promise = some loading }, starts)
    ]
  ]

  -- The rest of the load; `none` is a missing file or a failed read.
  unfoldable pub graph_loaded : Option (List ℕ) → L1Router f → L1Router f
  unfolding decode_l1
  graph_loaded none s = record s { load_promise = some rejected }
  graph_loaded (some buf) s = elim (decode_l1 f buf) [
    | none ↦ record s { load_promise = some rejected }
    | some g ↦ record { graph = some g; load_promise = none }
  ]

  -- `loaded`, with the numbers of nodes and edges
  unfoldable pub status : L1Router f → Option (ℕ × ℕ)
  status s = elim s.graph [ none ↦ none | some g ↦ some (g.n, g.m) ]

  abbrev pub cap_of : Option ℕ → ℕ
  cap_of none = 1500000
  cap_of (some n) = n

  -- `route` once the graph is there; `none` means that the fuel ran out
  unfoldable pub route_on : ℕ → L1Graph f → L1RouteRequest f → Option (L1RouteResponse f)
  unfolding snap_l1 bidir_a_star_l1
  route_on fuel g req = elim (snap_l1 f g req.src_lat req.src_lon true) [
    | none ↦ some (refused src_snap_failed)
    | some src ↦ elim (snap_l1 f g req.dst_lat req.dst_lon false) [
      | none ↦ some (refused dst_snap_failed)
      | some dst ↦ elim (bidir_a_star_l1 f g fuel src.node dst.node (cap_of req.settled_cap)) [
        | none ↦ none
        | some none ↦ some (refused no_path)
        | some (some r) ↦ some (routed r.time_s r.len_m r.settled src.dist_m dst.dist_m)
      ]
    ]
  ]

  -- `route` when its wait for the graph is over; `none` also stands for a wait that is not
  unfoldable pub route : ℕ → GraphAnswer f → L1RouteRequest f → Option (L1RouteResponse f)
  unfolding route_on
  route fuel throws req = some (refused load_failed)
  route fuel (ready g) req = route_on fuel g req
  route fuel waits req = none
  route fuel starts req = none

  -- `body` is what parsing the body gives, `none` where it is rejected: it is read before the graph
  -- is asked for.
  unfoldable pub fetch_l1 :
      ℕ → Text → Option (L1RouteRequest f) → L1Router f → L1Router f × L1Reply f
  unfolding get_graph route status
  fetch_l1 fuel path body s =
      let (s', answer) = get_graph s in
      let called : L1Router f × L1Reply f = elim body [
        | none ↦ (s, unread)
        | some req ↦ (s', told (route fuel answer req))
      ] in
      if text_eq.same path (codes "/status")
      then (s, reported (status s))
      else if text_eq.same path (codes "/route")
      then called
      else (s, unknown_path)

  -- One event of the object: a call, or the answer to a load that waits.
  pub data Step (s : L1Router f) : L1Router f → Type 0 where
    asked :
        (fuel : ℕ) (path : Text) (body : Option (L1RouteRequest f))
        → Step s (fetch_l1 fuel path body s).0
    answered :
        (file : Option (List ℕ)) → s.load_promise ≡ some loading → Step s (graph_loaded file s)

  pub data Steps (s : L1Router f) : L1Router f → Type 0 where
    done : Steps s s
    next : {s' s'' : L1Router f} → Steps s s' → Step s' s'' → Steps s s''
