-- ===== src/Updater/Json/Canonical.antt =====
-- The canonical reader accepts what the canonical printer writes.
use neko_family_proxy.Prelude.{◌≡◌, Option, some, arith, ok, list_eq, nat_eq, ==-self}
use neko_family_proxy.Updater.Frame.Words.{Bytes}
use neko_family_proxy.Updater.Json.{Json, canonical_json_dumps, canonical_json_loads}

-- What the printer writes is read back, if the parser finds the value in its text.
pub canonical_json_loads-dumps :
    (loads : Bytes → Option Json) (raw : Bytes) (v : Json)
    → canonical_json_dumps v ≡ ok raw
    → loads raw ≡ some v
    → canonical_json_loads loads raw ≡ ok v
unfolding canonical_json_loads
canonical_json_loads-dumps loads raw v d e = ground (arith, ==-self raw)
