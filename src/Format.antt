-- ===== src/Format.antt =====
-- src/format.ts: the texts of distances and durations. Durations are whole seconds, as the endpoint
-- rounds them before the call.
use open_distance.Prelude.{ℕ, zero, suc, ◌+◌, ◌/◌, ◌%◌, ◌++◌, if◌then◌else◌, nat_beq, ltb}
use open_distance.Prelude.Int.{ℤ}
use open_distance.Text.{Text, codes}
use open_distance.Float.{Float}
use open_distance.Decimal.{show_nat, show_int}

pub data Units : Type 0 where
  imperial metric : Units

module _ (f : Float) where
  open f use {R, lit, mul, div, lt, round, to_fixed}

  -- one decimal below ten
  abbrev short : R → Text
  short x = to_fixed (if lt x (lit 10) then 1 else 0) x

  unfoldable pub format_distance : R → Units → Text
  unfolding show_int
  format_distance meters metric =
      if lt meters (lit 1000)
      then show_int (round meters) ++ codes " m"
      else short (div meters (lit 1000)) ++ codes " km"
  format_distance meters imperial =
      let feet = mul meters (div (lit 328084) (lit 100000)) in
      let miles = div meters (div (lit 1609344) (lit 1000)) in
      if lt feet (lit 528) then show_int (round feet) ++ codes " ft" else short miles ++ codes " mi"

-- a count and its unit, in the plural but for one
unfoldable pub counted : ℕ → Text → Text
unfolding show_nat
counted n unit = show_nat n ++ codes " " ++ unit ++ (if nat_beq n 1 then codes "" else codes "s")

-- `Math.max(1, Math.round(seconds))` seconds
unfoldable pub format_seconds : ℕ → Text
unfolding counted
format_seconds zero = counted 1 (codes "sec")
format_seconds (suc n) = counted (suc n) (codes "sec")

unfoldable pub format_minutes : ℕ → Text
unfolding counted
format_minutes total_min =
    let hours = counted (total_min / 60) (codes "hour") in
    let mins = total_min % 60 in
    if ltb total_min 60
    then counted total_min (codes "min")
    else if nat_beq mins 0
    then hours
    else hours ++ codes " " ++ counted mins (codes "min")

-- `Math.round(seconds / 60)` is the quotient of `seconds + 30`.
unfoldable pub format_duration : ℤ → Text
unfolding format_seconds format_minutes
format_duration (ℤ.negsuc n) = format_seconds 0
format_duration (ℤ.pos seconds) =
    let minutes = format_minutes ((seconds + 30) / 60) in
    if ltb seconds 60 then format_seconds seconds else minutes
