-- ===== src/Bridge/Band.antt =====
-- `Band` of crates/bridge-core/src/state.rs.
use elecraft_genius_bridge.Common.{Bool, String, if◌then◌else◌, leb, ℕ, ◌&&◌}

pub data Band : Type 0 where
  unknown m160 m80 m60 m40 m30 m20 m17 m15 m12 m10 m6 : Band

-- `lo..=hi`.
abbrev pub within : ℕ → ℕ → ℕ → Bool
within lo hi n = leb lo n && leb n hi

unfoldable pub from_frequency_hz : ℕ → Band
from_frequency_hz hz =
    if within 1800000 2000000 hz
    then m160
    else if within 3500000 4000000 hz
    then m80
    else if within 5330500 5406500 hz
    then m60
    else if within 7000000 7300000 hz
    then m40
    else if within 10100000 10150000 hz
    then m30
    else if within 14000000 14350000 hz
    then m20
    else if within 18068000 18168000 hz
    then m17
    else if within 21000000 21450000 hz
    then m15
    else if within 24890000 24990000 hz
    then m12
    else if within 28000000 29700000 hz
    then m10
    else if within 50000000 54000000 hz
    then m6
    else unknown

unfoldable pub as_str : Band → String
as_str unknown = "unknown"
as_str m160 = "160m"
as_str m80 = "80m"
as_str m60 = "60m"
as_str m40 = "40m"
as_str m30 = "30m"
as_str m20 = "20m"
as_str m17 = "17m"
as_str m15 = "15m"
as_str m12 = "12m"
as_str m10 = "10m"
as_str m6 = "6m"
