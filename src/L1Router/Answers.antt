-- ===== src/L1Router/Answers.antt =====
-- What the object's answers say, and what a failed load leaves.
use open_distance.Prelude.{
  ℕ, ◌≡◌, refl, true, false, Option, none, some, List, Option-cases, Bool-cases, ◌⊎◌, inl, inr,
}
use open_distance.Text.{Text, text_eq, codes}
use open_distance.Float.{Float}
use open_distance.L1.{L1Graph, bidir_a_star_l1}
use open_distance.L1.Decode.{decode_l1}
use open_distance.L1.Snap.{L1Snap, snap_l1}
use open_distance.L1.Walks.{Walk, IsSymmetric}
use open_distance.L1.Route.{bidir_a_star_l1-Walk}
use open_distance.L1Router.{
  L1RouteRequest, L1RouteResponse, routed, refused, src_snap_failed, dst_snap_failed, no_path,
  L1Router, fetch_l1, told, route, load_failed, throws, rejected, loading, get_graph, graph_loaded,
  route_on, cap_of, Step, Steps, asked, answered, done, next,
}

module _ (f : Float) where
  -- nothing is loaded, and the promise was rejected
  abbrev HasFailed : L1Router f → Type 0
  HasFailed s = (s.graph ≡ none) × (s.load_promise ≡ some rejected)

  -- A call leaves the state alone or asks for the graph.
  fetch_l1-state :
      (fuel : ℕ) (path : Text) (body : Option (L1RouteRequest f)) (s : L1Router f)
      → ((fetch_l1 f fuel path body s).0 ≡ s)
        ⊎ ((fetch_l1 f fuel path body s).0 ≡ (get_graph f s).0)
  unfolding fetch_l1
  fetch_l1-state fuel path body s = elim (Bool-cases (text_eq.same path (codes "/status"))) [
    | inl status ↦ inl (rw (status, fetch_l1) refl)
    | inr other ↦ elim (Bool-cases (text_eq.same path (codes "/route"))) [
      | inr gone ↦ inl (rw (other, gone, fetch_l1) refl)
      | inl called ↦ elim (Option-cases body) [
        | inl e ↦ inl (rw (other, called, e, fetch_l1) refl)
        | inr (req, e) ↦ inr (rw (other, called, e, fetch_l1) refl)
      ]
    ]
  ]

  get_graph-HasFailed : (s : L1Router f) → HasFailed s → HasFailed (get_graph f s).0
  unfolding get_graph
  get_graph-HasFailed s h = rw (h.0, h.1, get_graph) h

  Step-HasFailed : {s s' : L1Router f} → Step f s s' → HasFailed s → HasFailed s'
  Step-HasFailed {s} (asked fuel path body) h = elim (fetch_l1-state fuel path body s) [
    | inl e ↦ rw e h
    | inr e ↦ rw e (get_graph-HasFailed s h)
  ]
  Step-HasFailed {s} (answered file e) h =
      let both : some rejected ≡ some loading = rw h.1 at e in absurd cc

  Steps-HasFailed : {s s' : L1Router f} → Steps f s s' → HasFailed s → HasFailed s'
  Steps-HasFailed done h = h
  Steps-HasFailed (next before step) h = Step-HasFailed step (Steps-HasFailed before h)

-- the overlay that an answer of the bucket holds: none where the file is missing, the read has failed,
-- or the bytes are refused
abbrev pub overlay_of : (f : Float) → Option (List ℕ) → Option (L1Graph f)
overlay_of f none = none
overlay_of f (some buf) = decode_l1 f buf

graph_loaded-HasFailed :
    (f : Float) (s : L1Router f) (file : Option (List ℕ))
    → s.graph ≡ none
    → overlay_of f file ≡ none
    → HasFailed f (graph_loaded f file s)
unfolding graph_loaded
graph_loaded-HasFailed f s none empty fails = (empty, refl)
graph_loaded-HasFailed f s (some buf) empty fails = rw (graph_loaded, fails) (empty, refl)

-- When a load of an object that has no graph fails, every later call throws, whatever happens in
-- between: the file is never read again.
Steps-throws :
    (f : Float) (s s' : L1Router f)
    → s.graph ≡ none
    → (file : Option (List ℕ)) → overlay_of f file ≡ none
    → Steps f (graph_loaded f file s) s'
    → (get_graph f s').1 ≡ throws
unfolding get_graph
Steps-throws f s s' empty file fails steps =
    let (no_graph, failed) =
      Steps-HasFailed f steps (graph_loaded-HasFailed f s file empty fails) in
    rw (no_graph, failed, get_graph) refl

-- When a load of an object that has no graph fails, because there is no file, the read fails or the
-- bytes do not decode, every later call for a route is answered with the failed load, whatever calls
-- and answers come in between.
pub fetch_l1-load_failed :
    (f : Float) (s s' : L1Router f) (fuel : ℕ) (req : L1RouteRequest f)
    → s.graph ≡ none
    → (file : Option (List ℕ)) → overlay_of f file ≡ none
    → Steps f (graph_loaded f file s) s'
    → (fetch_l1 f fuel (codes "/route") (some req) s').1 ≡ told (some (refused load_failed))
unfolding fetch_l1 route
fetch_l1-load_failed f s s' fuel req empty file fails steps =
    rw (fetch_l1, Steps-throws f s s' empty file fails steps) refl

-- On an overlay whose edges all have their reverses, an answer with a route has the time and the
-- length of a walk between the two nodes that the points snap to.
pub route_on-Walk :
    (f : Float) (fuel : ℕ) (g : L1Graph f) (req : L1RouteRequest f) (time_s len_m settled : ℕ)
    (src_dist dst_dist : f.R)
    → IsSymmetric f g
    → route_on f fuel g req ≡ some (routed time_s len_m settled src_dist dst_dist)
    → (src : L1Snap f) × (dst : L1Snap f) × (snap_l1 f g req.src_lat req.src_lon true ≡ some src)
      × (snap_l1 f g req.dst_lat req.dst_lon false ≡ some dst)
      × Walk f g src.node dst.node time_s len_m
unfolding route_on
route_on-Walk f fuel g req time_s len_m settled src_dist dst_dist symmetric h =
    let answer : L1RouteResponse f = routed time_s len_m settled src_dist dst_dist in
    elim (Option-cases (snap_l1 f g req.src_lat req.src_lon true)) [
      | inl e ↦
          let no : some (refused src_snap_failed) ≡ some answer = rw (e, route_on) at h in absurd cc
      | inr (src, e) ↦ elim (Option-cases (snap_l1 f g req.dst_lat req.dst_lon false)) [
        | inl e' ↦
            let no : some (refused dst_snap_failed) ≡ some answer = rw (e, e', route_on) at h in
            absurd cc
        | inr (dst, e') ↦
            let search = bidir_a_star_l1 f g fuel src.node dst.node (cap_of f req.settled_cap) in
            elim (Option-cases search) [
              | inl out ↦ let no : none ≡ some answer = rw (e, e', out, route_on) at h in absurd cc
              | inr (found, ran) ↦ elim (Option-cases found) [
                | inl none_found ↦
                    let ran' : search ≡ some none = rw none_found at ran in
                    let no : some (refused no_path) ≡ some answer =
                      rw (e, e', ran', route_on) at h in
                    absurd cc
                | inr (r, is_r) ↦
                    let ran' : search ≡ some (some r) = rw is_r at ran in
                    let walk =
                      bidir_a_star_l1-Walk f g fuel src.node dst.node (cap_of f req.settled_cap) r
                        symmetric ran' in
                    let yes : some (routed r.time_s r.len_m r.settled src.dist_m dst.dist_m)
                        ≡ some answer =
                      rw (e, e', ran', route_on) at h in
                    let same_time : r.time_s ≡ time_s = cc in
                    let same_len : r.len_m ≡ len_m = cc in
                    (src, dst, e, e', rw (same_time, same_len) at walk)
              ]
            ]
      ]
    ]
