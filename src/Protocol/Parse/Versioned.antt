-- ===== src/Protocol/Parse/Versioned.antt =====
-- Versioned objects: parseVersioned of src/protocol/parse.ts.
use status_pipe.Base.{String, ◌≡◌, ap, some}
use status_pipe.Protocol.{parsed}
use status_pipe.Protocol.Json.{Engine, Object, good, get, number}
use status_pipe.Protocol.Json.Writing.{written, members_of-to_members}
use status_pipe.Protocol.Parse.{
  parse_versioned, parse_json, check_schema_version, object_or_corrupt,
}

-- A version 1 object passes.
pub parse_versioned-written :
    (js : Engine) (raw : String) (o : Object)
    → js.json_parse raw ≡ good (written o)
    → get "schemaVersion" o ≡ some (number 1)
    → parse_versioned js raw ≡ parsed o
unfolding parse_versioned parse_json check_schema_version object_or_corrupt
parse_versioned-written js raw o decoded v =
    rw (decoded, parse_json, members_of-to_members o, v, check_schema_version, parse_versioned)
      (ap parsed (members_of-to_members o))
