-- ===== src/Contract/Sample.antt =====
-- A document type that stands for the texts on the ledger, with encoding/json and strconv on it.
use crosshub.Prelude.{ℕ, refl, String, str_eq, Option, none, some, if◌then◌else◌}
use crosshub.Contract.Status.{to_string}
use crosshub.Contract.Defs.{
  empty_core, PrecommitContract, CommitContract, IContract, precommit, commit, Contract, get_status,
  get_contract_id,
}
use crosshub.Contract.Json.{Json, IsJson, reread}

pub data Doc : Type 0 where
  null : Doc
  outer inner : IContract → Doc
  quoted : String → Doc
  number : ℕ → Doc
  transferred : String → String → ℕ → Doc

unfoldable pub doc_object : Doc → Option (String → Option Doc)
doc_object (outer c) = some (λ k. if str_eq k "IContract" then some (inner c) else none)
doc_object (inner c) =
    some (λ k. if str_eq k "status" then some (quoted (to_string (get_status c))) else none)
doc_object _ = none

unfoldable pub doc_string : Doc → Option String
doc_string (quoted t) = some t
doc_string _ = none

unfoldable pub doc_precommit : Doc → PrecommitContract
doc_precommit (inner (precommit c)) = record c { status = reread c.status }
doc_precommit (inner (commit c)) = record {
  status = reread c.status;
  contract_id = c.contract_id;
  receipt = "";
  contract_core = empty_core;
}
doc_precommit _ = record { status = 0; contract_id = ""; receipt = ""; contract_core = empty_core }

unfoldable pub doc_commit : Doc → CommitContract
doc_commit (inner c) = record { status = reread (get_status c); contract_id = get_contract_id c }
doc_commit _ = record { status = 0; contract_id = "" }

unfoldable pub doc_marshal : Contract → Doc
doc_marshal none = null
doc_marshal (some c) = outer c

abbrev pub doc_json : Json Doc
doc_json = record {
  object = doc_object;
  string = doc_string;
  precommit_of = doc_precommit;
  commit_of = doc_commit;
  marshal = doc_marshal;
}

pub doc_json-IsJson : IsJson doc_json
unfolding doc_object doc_string doc_precommit doc_commit doc_marshal
doc_json-IsJson = record {
  inner = inner;
  outer_object = λ c. (_, refl, refl);
  inner_object = λ c. (_, _, refl, refl, refl);
  precommit_precommit = λ c. refl;
  precommit_commit = λ c. refl;
  commit_any = λ c. refl;
}
