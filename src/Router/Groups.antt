-- ===== src/Router/Groups.antt =====
-- src/router.ts: what `oneToMany` is asked and answers, and its index of the target nodes.
use open_distance.Prelude.{
  ℕ, ◌+◌, Bool, false, ◌||◌, Option, none, some, List, [], ◌∷◌, if◌then◌else◌, nat_beq, nat_eq,
  length,
}
use open_distance.Prelude.Dict.{lookup, insert, has_value}
use open_distance.Prelude.Int.{ℤ}
use open_distance.Text.{Text, text_eq}
use open_distance.Float.{Float}
use open_distance.Tiles.{pack_tile_id}

pub record NodeRef : Type 0 where
  pub tx : ℤ
  pub ty : ℤ
  pub dense : ℕ

pub record LegResult (f : Float) : Type 0 where
  pub time_s : f.R
  pub len_m : f.R

pub record DestGroup (f : Float) : Type 0 where
  pub id : Text
  pub candidates : List NodeRef
  pub dest_lat : f.R
  pub dest_lon : f.R

abbrev pub Targets : Type 0
Targets = List (ℕ × List (ℕ × Text))

unfoldable pub has_text : Text → List Text → Bool
has_text x [] = false
has_text x (y ∷ ys) = text_eq.same y x || has_text x ys

-- The inner loop that fills the target index: the first group keeps a node.
abbrev pub inner_of : ℕ → Targets → List (ℕ × Text)
inner_of tp targets = elim (lookup tp targets) [ none ↦ [] | some inner ↦ inner ]

unfoldable pub index_candidate : Text → NodeRef → Targets → Targets
unfolding lookup insert
index_candidate id d targets =
    let tp = pack_tile_id d.tx d.ty in
    let inner = inner_of tp targets in
    let inner' = if has_value (lookup d.dense inner) then inner else insert d.dense id inner in
    insert tp inner' targets

unfoldable pub index_candidates : Text → List NodeRef → Targets → Targets
unfolding index_candidate
index_candidates id [] targets = targets
index_candidates id (d ∷ ds) targets = index_candidates id ds (index_candidate id d targets)

-- A group with no candidate adds nothing and is not counted.
unfoldable pub index_groups : (f : Float) → List (DestGroup f) → Targets → Targets
unfolding index_candidates
index_groups f [] targets = targets
index_groups f (g ∷ gs) targets = index_groups f gs (index_candidates g.id g.candidates targets)

unfoldable pub count_groups : (f : Float) → List (DestGroup f) → ℕ
count_groups f [] = 0
count_groups f (g ∷ gs) = (if nat_beq (length g.candidates) 0 then 0 else 1) + count_groups f gs

unfoldable pub target_at : Targets → ℕ → ℕ → Option Text
unfolding lookup
target_at targets tp dense = elim (lookup tp targets) [
  | none ↦ none
  | some inner ↦ lookup dense inner
]
