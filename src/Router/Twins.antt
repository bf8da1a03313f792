-- ===== src/Router/Twins.antt =====
-- Groups that share their candidates, as a destination that is asked for twice gives them.
use open_distance.Prelude.{
  ◌≡◌, ◌≢◌, ℕ, Bool, Option, none, some, List, [], ◌∷◌, Option-cases, Bool-cases, inl, inr,
}
use open_distance.Prelude.Dict.{lookup}
use open_distance.Prelude.Int.{ℤ}
use open_distance.Text.{Text, text_eq}
use open_distance.Float.{Float}
use open_distance.Tiles.{Tile}
use open_distance.Router.{NodeRef, DestGroup, LegResult, one_to_many}
use open_distance.Router.TargetIndex.{first_group, has_node}
use open_distance.Router.Legs.{one_to_many-Route}

first_group-twin :
    (f : Float) (g h : DestGroup f) (tp dense : ℕ)
    → g.candidates ≡ h.candidates
    → g.id ≢ h.id
    → first_group f tp dense (g ∷ h ∷ []) ≢ some h.id
unfolding first_group
first_group-twin f g h tp dense same apart found =
    elim (Bool-cases (has_node tp dense g.candidates)) [
      | inl shared ↦ let claimed : some g.id ≡ some h.id = rw shared at found in apart cc
      | inr other ↦ let unclaimed : none ≡ some h.id = rw (other, ← same, other) at found in cc
    ]

-- Of two groups with the same candidates and different ids the second never gets a leg, whatever
-- the graph is.
pub one_to_many-twin :
    (f : Float) (get_tile : ℤ → ℤ → Option (Tile f)) (expired : ℕ → Bool) (fuel max_settled : ℕ)
    (src : NodeRef) (g h : DestGroup f) (out : List (Text × LegResult f))
    → g.candidates ≡ h.candidates
    → g.id ≢ h.id
    → one_to_many f get_tile expired fuel max_settled src (g ∷ h ∷ []) ≡ some out
    → lookup h.id out ≡ none
one_to_many-twin f get_tile expired fuel max_settled src g h out same apart ran =
    elim (Option-cases (lookup h.id out)) [
      | inl e ↦ e
      | inr (leg, e) ↦
          let (tp, dense, claimed, route) =
            one_to_many-Route f get_tile expired fuel max_settled src (g ∷ h ∷ []) out h.id leg ran
              e in
          absurd (first_group-twin f g h tp dense same apart claimed)
    ]
