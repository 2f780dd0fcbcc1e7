-- ===== src/Contract/Json.antt =====
-- Contract.UnmarshalJSON and RebuildIContract over encoding/json, which is a parameter: a struct is
-- chosen by the status in the text, whatever struct the text was made from.
use crosshub.Prelude.{
  ◌≡◌, refl, ap, ◌∙◌, Bool, ◌||◌, String, str_eq, Option, some, Run, ok, err, panic, ◌>>=◌, or_else,
  if◌then◌else◌, ◌==◌, arith,
}
use crosshub.Contract.Status.{
  CStatus, IsFlag, finished, out_once_completed, to_string, unmarshal_text, parse-to_string,
  flag_cases,
}
use crosshub.Contract.Defs.{
  empty_core, PrecommitContract, CommitContract, IContract, precommit, commit, Contract,
  get_contract_id, get_status,
}

pub data JsonError : Type 0 where
  syntax : JsonError
  unsupported : String → JsonError

-- What the code calls of encoding/json, on texts of a type `D`. `object` is Unmarshal into a map of raw
-- messages: the map may lack a key or hold nil for it. `precommit_of` and `commit_of` are Unmarshal into
-- a fresh struct: what the struct holds afterwards, also after an error.
pub record Json (D : Type 0) : Type 0 where
  pub object : D → Option (String → Option D)
  pub string : D → Option String
  pub precommit_of : D → PrecommitContract
  pub commit_of : D → CommitContract
  pub marshal : Contract → D

module _ {D : Type 0} (json : Json D) where
  -- The switch of RebuildIContract. The error of its Unmarshal is dropped: it returns `c, nil`.
  unfoldable pub rebuild_as : String → D → Run JsonError Contract
  rebuild_as typ bytes =
      if str_eq typ "Init"
        || str_eq typ "Pending"
        || str_eq typ "Executed"
        || str_eq typ "Completed"
      then ok (some (precommit (json.precommit_of bytes)))
      else if str_eq typ "Finished" || str_eq typ "OutOnceCompleted"
      then ok (some (commit (json.commit_of bytes)))
      else err (unsupported typ)

  unfoldable pub rebuild_icontract : D → Run JsonError Contract
  unfolding rebuild_as
  rebuild_icontract bytes = do
    contract_map ← or_else (json.object bytes) (err syntax)
    raw ← or_else (contract_map "status") panic
    typ ← or_else (json.string raw) (err syntax)
    rebuild_as typ bytes

  -- Contract.UnmarshalJSON. A missing key is a nil pointer that is followed.
  unfoldable pub unmarshal : D → Run JsonError Contract
  unmarshal bytes = do
    obj_map ← or_else (json.object bytes) (err syntax)
    raw ← or_else (obj_map "IContract") panic
    rebuild_icontract raw

-- The status that a field holds after its text form was read into a zero field.
abbrev pub reread : CStatus → CStatus
reread c = (unmarshal_text 0 (to_string c)).0

-- encoding/json on these types: a struct is written with the keys of its tags, a status by its
-- MarshalText; fields are read back by UnmarshalText, unknown keys are skipped, and fields without a
-- key stay zero.
pub record IsJson {D : Type 0} (json : Json D) : Type 0 where
  pub inner : IContract → D
  pub outer_object :
      (c : IContract)
      → (m : String → Option D) × (json.object (json.marshal (some c)) ≡ some m)
        × (m "IContract" ≡ some (inner c))
  pub inner_object :
      (c : IContract)
      → (m : String → Option D) × (raw : D) × (json.object (inner c) ≡ some m)
        × (m "status" ≡ some raw)
        × (json.string raw ≡ some (to_string (get_status c)))
  pub precommit_precommit :
      (c : PrecommitContract)
      → json.precommit_of (inner (precommit c)) ≡ record c { status = reread c.status }
  pub precommit_commit :
      (c : CommitContract)
      → json.precommit_of (inner (commit c)) ≡ record {
        status = reread c.status;
        contract_id = c.contract_id;
        receipt = "";
        contract_core = empty_core;
      }
  pub commit_any :
      (c : IContract)
      → json.commit_of (inner c)
        ≡ record { status = reread (get_status c); contract_id = get_contract_id c }

-- The kind of struct that a status selects.
abbrev pub is_commit_status : CStatus → Bool
is_commit_status s = s == finished || s == out_once_completed

-- What a contract reads back as: the struct is chosen by the status alone.
unfoldable pub reloaded : IContract → IContract
reloaded (precommit c) =
    if is_commit_status c.status
    then commit (record { status = c.status; contract_id = c.contract_id })
    else precommit c
reloaded (commit c) =
    if is_commit_status c.status
    then commit c
    else precommit (record {
      status = c.status;
      contract_id = c.contract_id;
      receipt = "";
      contract_core = empty_core;
    })

reread-flag : (c : CStatus) → IsFlag c → reread c ≡ c
unfolding unmarshal_text
reread-flag c h = rw (parse-to_string c h, reread, unmarshal_text)

module _ {D : Type 0} (json : Json D) where
  rebuild_as-flag :
      (bytes : D) (s : CStatus)
      → IsFlag s
      → rebuild_as json (to_string s) bytes
        ≡ ok (
            some (
              if is_commit_status s
              then commit (json.commit_of bytes)
              else precommit (json.precommit_of bytes)))
  unfolding rebuild_as to_string
  rebuild_as-flag bytes = flag_cases _ refl refl refl refl refl refl

module _ {D : Type 0} (json : Json D) (lawful : IsJson json) where
  rebuild_icontract-steps :
      (c : IContract)
      → rebuild_icontract json (lawful.inner c)
        ≡ rebuild_as json (to_string (get_status c)) (lawful.inner c)
  unfolding rebuild_icontract
  rebuild_icontract-steps c =
      let (mi, raw, ei, si, ti) = lawful.inner_object c in rw (ei, rebuild_icontract, si, ti)

  unmarshal-inner :
      (c : IContract)
      → unmarshal json (json.marshal (some c)) ≡ rebuild_icontract json (lawful.inner c)
  unfolding unmarshal
  unmarshal-inner c = let (mo, eo, io) = lawful.outer_object c in rw (eo, unmarshal, io)

  selected :
      (c : IContract)
      → IsFlag (get_status c)
      → (if is_commit_status (get_status c)
          then commit (json.commit_of (lawful.inner c))
          else precommit (json.precommit_of (lawful.inner c)))
        ≡ reloaded c
  unfolding reloaded
  selected (precommit c) f =
      rw (lawful.commit_any (precommit c), lawful.precommit_precommit c, reread-flag c.status f)
        (ground arith)
  selected (commit c) f =
      rw (lawful.commit_any (commit c), lawful.precommit_commit c, reread-flag c.status f)
        (ground arith)

  pub rebuild_icontract-inner :
      (c : IContract)
      → IsFlag (get_status c)
      → rebuild_icontract json (lawful.inner c) ≡ ok (some (reloaded c))
  rebuild_icontract-inner c f =
      rebuild_icontract-steps c
      ∙ rebuild_as-flag json (lawful.inner c) (get_status c) f
      ∙ ap (λ x. ok (some x)) (selected c f)

  -- A contract whose status is one of the six flags reads back, without error, as the struct that the
  -- status selects: itself where kind and status agree, a bare commit contract from a precommit
  -- contract that is Finished or OutOnceCompleted, a precommit contract with empty fields from a
  -- commit contract of another status.
  pub unmarshal-marshal :
      (c : IContract)
      → IsFlag (get_status c)
      → unmarshal json (json.marshal (some c)) ≡ ok (some (reloaded c))
  unmarshal-marshal c f = unmarshal-inner c ∙ rebuild_icontract-inner c f
