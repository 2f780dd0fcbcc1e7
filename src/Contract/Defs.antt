-- ===== src/Contract/Defs.antt =====
-- The two kinds of contract, their methods, and the interface value that holds one.
use crosshub.Prelude.{Bool, List, [], String, Option, none, some, ◌==◌}
use crosshub.Contract.Status.{
  CStatus, init, pending, executed, finished, completed, out_once_completed,
}

pub record ContractCore : Type 0 where
  pub address : String
  pub value : String
  pub description : String
  pub owner : String
  pub to_call_func : String
  pub args : List String
  pub creator : String

pub record PrecommitContract : Type 0 where
  pub status : CStatus
  pub contract_id : String
  pub receipt : String
  pub contract_core : ContractCore

pub record CommitContract : Type 0 where
  pub status : CStatus
  pub contract_id : String

-- An IContract that is not nil: a pointer to one of the two structs.
pub data IContract : Type 0 where
  precommit : PrecommitContract → IContract
  commit : CommitContract → IContract

-- Contract embeds an IContract, which may be nil.
abbrev pub Contract : Type 0
Contract = Option IContract

abbrev pub empty_core : ContractCore
empty_core = record {
  address = "";
  value = "";
  description = "";
  owner = "";
  to_call_func = "";
  args = [];
  creator = "";
}

abbrev pub get_contract_id : IContract → String
get_contract_id (precommit c) = c.contract_id
get_contract_id (commit c) = c.contract_id

abbrev pub get_status : IContract → CStatus
get_status (precommit c) = c.status
get_status (commit c) = c.status

abbrev pub get_core_info : IContract → Option ContractCore
get_core_info (precommit c) = some c.contract_core
get_core_info (commit c) = none

abbrev pub update_status : CStatus → IContract → IContract
update_status s (precommit c) = precommit (record c { status = s })
update_status s (commit c) = commit (record c { status = s })

abbrev pub update_receipt : String → PrecommitContract → PrecommitContract
update_receipt r c = record c { receipt = r }

abbrev pub is_init : IContract → Bool
is_init c = get_status c == init

abbrev pub is_pending : IContract → Bool
is_pending c = get_status c == pending

abbrev pub is_executed : IContract → Bool
is_executed c = get_status c == executed

abbrev pub is_finished : IContract → Bool
is_finished c = get_status c == finished

abbrev pub is_completed : IContract → Bool
is_completed c = get_status c == completed

abbrev pub is_out_once_completed : IContract → Bool
is_out_once_completed c = get_status c == out_once_completed
