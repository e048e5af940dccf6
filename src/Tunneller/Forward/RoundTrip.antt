-- ===== src/Tunneller/Forward/RoundTrip.antt =====
-- What one node writes for another, and what the other reads.
use wardnet_cloud.Tunneller.Registry.{Registry}
