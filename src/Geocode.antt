-- ===== src/Geocode.antt =====
-- src/geocode.ts: what the geocoder answers.
pub mod Coords
pub mod Query
pub mod Kept
use open_distance.Text.{Text}
use open_distance.Float.{Float}

-- `match` of a hit
pub data Match : Type 0 where
  coords rooftop interpolated : Match

pub record GeocodeHit (f : Float) : Type 0 where
  pub lat : f.R
  pub lon : f.R
  pub normalized : Text
  pub state : Text
  pub matched : Match

pub data GeocodeResult (f : Float) : Type 0 where
  hit : GeocodeHit f → GeocodeResult f
  miss : (normalized : Text) → GeocodeResult f
