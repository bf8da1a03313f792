-- ===== src/Dispatch/Overlay.antt =====
-- src/index.ts: the probe of the overlay's object at /healthz/l1. `number_of` is the language's
-- `Number`, with `none` for NaN; `ask` is the call of the object, with `none` for one that throws.
use open_distance.Prelude.{◌>>=◌, Option, none, some, List, [], ◌∷◌, if◌then◌else◌, nat_beq}
use open_distance.Text.{Text, codes}
use open_distance.Elements.{onto_first, is_empty}
use open_distance.Dispatch.{Reply, json_type, no_store, usage, overlay_answer, overlay_error}

-- `split(",")`
unfoldable pub split_commas : Text → List Text
split_commas [] = [] ∷ []
split_commas (c ∷ s) =
    let rest = split_commas s in if nat_beq c 44 then [] ∷ rest else onto_first c rest

-- a parameter of the URL, or the text for one that is missing or empty
abbrev pub or_default : Option Text → Text → Text
or_default none default = default
or_default (some s) default = if is_empty s then default else s

module _ {R : Type 0} (number_of : Text → Option R) where
  -- two texts that are both numbers
  unfoldable pub pair_of : List Text → Option (R × R)
  pair_of (a ∷ b ∷ []) = do lat ← number_of a; lon ← number_of b; some (lat, lon)
  pair_of _ = none

  module _ {B : Type 0} (ask : R → R → R → R → Option B) where
    -- What the object answers is passed on with status 200, whether it is ok or not.
    abbrev pub asked_reply : Option B → Reply
    asked_reply none = record {
      status = 503;
      headers = json_type ∷ no_store ∷ [];
      content = overlay_error;
    }
    asked_reply (some body) = record {
      status = 200;
      headers = json_type ∷ no_store ∷ [];
      content = overlay_answer;
    }

    abbrev pub usage_reply : Reply
    usage_reply = record {
      status = 400;
      headers = (codes "content-type", codes "application/json") ∷ [];
      content = usage;
    }

    unfoldable pub overlay_probe : (o d : Option Text) → Reply
    unfolding split_commas pair_of
    overlay_probe o d = elim (pair_of (split_commas (or_default o (codes "40.7128,-74.0060")))) [
      | none ↦ usage_reply
      | some src ↦ elim (pair_of (split_commas (or_default d (codes "34.0522,-118.2437")))) [
        | none ↦ usage_reply
        | some dst ↦ asked_reply (ask src.0 src.1 dst.0 dst.1)
      ]
    ]
