-- ===== src/State/Tables.antt =====
-- The tables of src/state_parser.ts: STATE_NAMES in the order of its keys, and the ranges of ZIP3,
-- which do not meet.
use open_distance.Prelude.{ℕ, List, [], ◌∷◌}
use open_distance.Text.{Text, codes}

abbrev pub state_names : List (Text × Text)
state_names =
    (codes "alabama", codes "AL")
    ∷ (codes "arizona", codes "AZ")
    ∷ (codes "arkansas", codes "AR")
    ∷ (codes "california", codes "CA")
    ∷ (codes "colorado", codes "CO")
    ∷ (codes "connecticut", codes "CT")
    ∷ (codes "delaware", codes "DE")
    ∷ (codes "district of columbia", codes "DC")
    ∷ (codes "washington_dc", codes "DC")
    ∷ (codes "florida", codes "FL")
    ∷ (codes "georgia", codes "GA")
    ∷ (codes "idaho", codes "ID")
    ∷ (codes "illinois", codes "IL")
    ∷ (codes "indiana", codes "IN")
    ∷ (codes "iowa", codes "IA")
    ∷ (codes "kansas", codes "KS")
    ∷ (codes "kentucky", codes "KY")
    ∷ (codes "louisiana", codes "LA")
    ∷ (codes "maine", codes "ME")
    ∷ (codes "maryland", codes "MD")
    ∷ (codes "massachusetts", codes "MA")
    ∷ (codes "michigan", codes "MI")
    ∷ (codes "minnesota", codes "MN")
    ∷ (codes "mississippi", codes "MS")
    ∷ (codes "missouri", codes "MO")
    ∷ (codes "montana", codes "MT")
    ∷ (codes "nebraska", codes "NE")
    ∷ (codes "nevada", codes "NV")
    ∷ (codes "new hampshire", codes "NH")
    ∷ (codes "new jersey", codes "NJ")
    ∷ (codes "new mexico", codes "NM")
    ∷ (codes "new york", codes "NY")
    ∷ (codes "north carolina", codes "NC")
    ∷ (codes "north dakota", codes "ND")
    ∷ (codes "ohio", codes "OH")
    ∷ (codes "oklahoma", codes "OK")
    ∷ (codes "oregon", codes "OR")
    ∷ (codes "pennsylvania", codes "PA")
    ∷ (codes "rhode island", codes "RI")
    ∷ (codes "south carolina", codes "SC")
    ∷ (codes "south dakota", codes "SD")
    ∷ (codes "tennessee", codes "TN")
    ∷ (codes "texas", codes "TX")
    ∷ (codes "utah", codes "UT")
    ∷ (codes "vermont", codes "VT")
    ∷ (codes "virginia", codes "VA")
    ∷ (codes "washington", codes "WA")
    ∷ (codes "west virginia", codes "WV")
    ∷ (codes "wisconsin", codes "WI")
    ∷ (codes "wyoming", codes "WY")
    ∷ []

abbrev pub zip_ranges : List (ℕ × ℕ × Text)
zip_ranges =
    (10, 27, codes "MA")
    ∷ (28, 29, codes "RI")
    ∷ (30, 33, codes "NH")
    ∷ (34, 34, codes "ME")
    ∷ (35, 38, codes "NH")
    ∷ (39, 49, codes "ME")
    ∷ (50, 52, codes "VT")
    ∷ (53, 53, codes "VT")
    ∷ (54, 59, codes "VT")
    ∷ (60, 69, codes "CT")
    ∷ (70, 89, codes "NJ")
    ∷ (100, 149, codes "NY")
    ∷ (150, 196, codes "PA")
    ∷ (197, 199, codes "DE")
    ∷ (200, 205, codes "DC")
    ∷ (206, 219, codes "MD")
    ∷ (220, 246, codes "VA")
    ∷ (247, 268, codes "WV")
    ∷ (270, 289, codes "NC")
    ∷ (290, 299, codes "SC")
    ∷ (300, 319, codes "GA")
    ∷ (320, 349, codes "FL")
    ∷ (350, 369, codes "AL")
    ∷ (370, 385, codes "TN")
    ∷ (386, 397, codes "MS")
    ∷ (398, 399, codes "GA")
    ∷ (400, 427, codes "KY")
    ∷ (430, 459, codes "OH")
    ∷ (460, 479, codes "IN")
    ∷ (480, 499, codes "MI")
    ∷ (500, 528, codes "IA")
    ∷ (530, 549, codes "WI")
    ∷ (550, 567, codes "MN")
    ∷ (570, 577, codes "SD")
    ∷ (580, 588, codes "ND")
    ∷ (590, 599, codes "MT")
    ∷ (600, 629, codes "IL")
    ∷ (630, 658, codes "MO")
    ∷ (660, 679, codes "KS")
    ∷ (680, 693, codes "NE")
    ∷ (700, 714, codes "LA")
    ∷ (716, 729, codes "AR")
    ∷ (730, 749, codes "OK")
    ∷ (750, 799, codes "TX")
    ∷ (800, 816, codes "CO")
    ∷ (820, 831, codes "WY")
    ∷ (832, 838, codes "ID")
    ∷ (840, 847, codes "UT")
    ∷ (850, 865, codes "AZ")
    ∷ (870, 884, codes "NM")
    ∷ (889, 898, codes "NV")
    ∷ (900, 961, codes "CA")
    ∷ (970, 979, codes "OR")
    ∷ (980, 994, codes "WA")
    ∷ []
