-- ===== src/ZoneKeyRange/IdParts.antt =====
-- Round trips of the ids of mongodb/resource_zone_key_range.go.
use terraform_provider_mongo.Prelude.{String, false, none, some, ◌==◌, ◌≡◌, refl, arith, ok}
use terraform_provider_mongo.Commands.{append_text}
use terraform_provider_mongo.Discovery.{colon}
use terraform_provider_mongo.Discovery.HostPort.{has_char}
use terraform_provider_mongo.ZoneKeyRange.{
  RangeServer, split_pair, format_zone_key_range_id, parse_zone_key_range_id,
}

split_pair-append :
    (a b : String)
    → split_pair (append_text a ":") ≡ none
    → split_pair (append_text a (append_text "::" b)) ≡ some (a, b)
unfolding split_pair append_text
split_pair-append String.[] b h = refl
split_pair-append (String.◌∷◌ c String.[]) b h = ground (arith, h)
split_pair-append (String.◌∷◌ c (String.◌∷◌ d a)) b h =
    ground (arith, h, split_pair-append (String.◌∷◌ d a) b)

-- A text without a colon is not split, with a colon after it either.
split_pair-colon_free :
    (a : String) → has_char colon a ≡ false → split_pair (append_text a ":") ≡ none
unfolding split_pair append_text has_char
split_pair-colon_free String.[] h = refl
split_pair-colon_free (String.◌∷◌ c a) h = ground (arith, h, split_pair-colon_free a)

-- What the ids rely on of the base64 coding of a text: it can be undone, and it has no colon.
pub record IsCoded {S D : Type 0} (server : RangeServer S D) (s : String) : Type 0 where
  pub decodes : server.decode (server.encode s) ≡ ok s
  pub colon_free : has_char colon (server.encode s) ≡ false

-- parseZoneKeyRangeID gives back the namespace and the bounds that formatZoneKeyRangeID was given, where
-- the base64 coding of the bounds can be undone and has no colon, and the namespace is not empty, has
-- no "::" and does not end with a colon.
pub parse_zone_key_range_id-format :
    {S D : Type 0} (server : RangeServer S D) (namespace min max : String)
    → IsCoded server min
    → IsCoded server max
    → (namespace == "") ≡ false
    → split_pair (append_text namespace ":") ≡ none
    → parse_zone_key_range_id server (format_zone_key_range_id server namespace min max)
      ≡ ok (namespace, min, max)
unfolding parse_zone_key_range_id format_zone_key_range_id
parse_zone_key_range_id-format server namespace min max low high n h =
    let a = server.encode min in
    let b = server.encode max in
    let inner = split_pair-append a b (split_pair-colon_free a low.colon_free) in
    let outer = split_pair-append namespace (append_text a (append_text "::" b)) h in
    ground (arith, inner, outer, n, low.decodes, high.decodes)
