-- ===== src/Tests/Host.antt =====
-- A concrete standard library for the tests: canonical UUIDs and plain HTTPS origins, ASCII text.
use immich_on_demand.Prelude.{[], none, some, if◌then◌else◌, ◌==◌, length, drop}
use immich_on_demand.Prelude.Text.{Text, codes}
use immich_on_demand.Model.Names.{Unicode}
use immich_on_demand.Uploads.Manifest.{Host, SplitUrl, no_port}

abbrev pub ascii : Unicode
ascii = record {
  nfc = λ value. value;
  uuid = λ value. if length value == 36 then some value else none;
}

abbrev pub split_plain : Text → SplitUrl
split_plain value = record {
  scheme = codes "https";
  netloc = drop 8 value;
  path = [];
  query = [];
  fragment = [];
  username = none;
  password = none;
  hostname = some (drop 8 value);
  port = no_port;
}

abbrev pub host : Host
host = record {
  unicode = ascii;
  urlsplit = split_plain;
  lower = λ value. value;
  sha1_hex = λ bytes. codes "da39a3ee5e6b4b0d3255bfef95601890afd80709";
  json_size = λ m. 900;
  uid = 1000;
}

abbrev pub job_id : Text
job_id = codes "11111111-1111-4111-8111-111111111111"

abbrev pub owner_id : Text
owner_id = codes "22222222-2222-4222-8222-222222222222"

abbrev pub asset_id : Text
asset_id = codes "33333333-3333-4333-8333-333333333333"

abbrev pub origin : Text
origin = codes "https://photos.example.com"
