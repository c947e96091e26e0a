-- ===== src/Tests.antt =====
-- The theorems at concrete data: lines of the console, a small session catalog, small graphs and a filter.
pub mod Console
pub mod Catalog
pub mod Graph
pub mod Listing
pub mod Filter
pub mod Aliases
pub mod Lineage
pub mod Capture
use m365_xdr_cli.Base.{ℕ, ◌+◌, ◌&&◌, Text, map, leb, if◌then◌else◌}

-- `str.lower` on the letters of ASCII.
abbrev pub ascii_lower : Text → Text
ascii_lower = map (λ c. if leb b'A' c && leb c b'Z' then c + 32 else c)
