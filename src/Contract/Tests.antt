-- ===== src/Contract/Tests.antt =====
-- Contracts written and read back.
use crosshub.Prelude.{◌≡◌, ◌↔◌, refl, some, ok}
use crosshub.Contract.Status.{finished, init, IsFlag, parse, to_string, parse_iff}
use crosshub.Contract.Defs.{empty_core, IContract, precommit, commit}
use crosshub.Contract.Json.{reloaded, unmarshal, unmarshal-marshal}
use crosshub.Contract.Sample.{doc_json, doc_json-IsJson}

abbrev settled : IContract
settled =
    precommit
      (record { status = finished; contract_id = "c1"; receipt = "r1"; contract_core = empty_core })

unmarshal-marshal_example :
    unmarshal doc_json (doc_json.marshal (some settled))
    ≡ ok (some (commit (record { status = finished; contract_id = "c1" })))
unfolding reloaded
unmarshal-marshal_example = unmarshal-marshal doc_json doc_json-IsJson settled refl

parse_iff_example : (parse "Init" ≡ ok init) ↔ (IsFlag init × (to_string init ≡ "Init"))
parse_iff_example = parse_iff "Init" init
