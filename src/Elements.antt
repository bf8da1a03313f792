-- ===== src/Elements.antt =====
-- src/elements.ts: the places of a request, separated by `|`, and the count of its elements.
pub mod Segments
use open_distance.Prelude.{
  ℕ, ◌*◌, Bool, true, false, ◌&&◌, ◌||◌, Option, none, some, List, [], ◌∷◌, map, if◌then◌else◌,
  nat_beq, leb, length,
}
use open_distance.Text.{Text}

-- the code of `|`
abbrev pub bar : ℕ
bar = 124

-- the code units that `trim` removes
abbrev pub is_space : ℕ → Bool
is_space c =
    nat_beq c 32
    || (leb 9 c && leb c 13)
    || nat_beq c 0xa0
    || nat_beq c 0x1680
    || (leb 0x2000 c && leb c 0x200a)
    || nat_beq c 0x2028
    || nat_beq c 0x2029
    || nat_beq c 0x202f
    || nat_beq c 0x205f
    || nat_beq c 0x3000
    || nat_beq c 0xfeff

abbrev pub is_empty : Text → Bool
is_empty [] = true
is_empty (c ∷ s) = false

abbrev pub trim_start : Text → Text
trim_start [] = []
trim_start (c ∷ s) = let rest = trim_start s in if is_space c then rest else c ∷ s

abbrev pub trim_end : Text → Text
trim_end [] = []
trim_end (c ∷ s) = let rest = trim_end s in if is_empty rest && is_space c then [] else c ∷ rest

unfoldable pub trim : Text → Text
trim s = trim_start (trim_end s)

abbrev pub onto_first : ℕ → List Text → List Text
onto_first c [] = (c ∷ []) ∷ []
onto_first c (s ∷ ss) = (c ∷ s) ∷ ss

-- `split("|")`
unfoldable pub split_bars : Text → List Text
split_bars [] = [] ∷ []
split_bars (c ∷ s) =
    let rest = split_bars s in if nat_beq c bar then [] ∷ rest else onto_first c rest

-- `filter(Boolean)` after `map`
unfoldable pub trim_all : List Text → List Text
unfolding trim
trim_all [] = []
trim_all (s ∷ ss) = let rest = trim_all ss in if is_empty (trim s) then rest else trim s ∷ rest

-- `none` stands for null; the empty text, which the code returns early for, has no segment either.
unfoldable pub split_multi : Option Text → List Text
unfolding split_bars trim_all
split_multi none = []
split_multi (some v) = if is_empty v then [] else trim_all (split_bars v)

-- the parameters `origins` and `destinations`
unfoldable pub count_elements : Option Text → Option Text → ℕ
unfolding split_multi
count_elements origins destinations =
    length (split_multi origins) * length (split_multi destinations)
