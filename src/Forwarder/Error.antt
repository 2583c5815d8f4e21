-- ===== src/Forwarder/Error.antt =====
-- forwarder/src/error.rs: the contract's errors, and the message that a panic carries for each.
use aurora_forwarder_contrac.Base.{Bytes, codes}

pub data ContractError : Type 0 where
  parse_account_error : ContractError
  borsh_deserialize_error : ContractError
  borsh_serialize_error : ContractError
  one_yocto_attach_error : ContractError
  private_call_error : ContractError
  bad_utf8_string : ContractError
  bad_number : ContractError

-- `as_ref`
abbrev pub message : ContractError → Bytes
message parse_account_error = codes "ERR_PARS_ACCOUNT"
message borsh_deserialize_error = codes "ERR_BORCH_DESERIALIZE"
message borsh_serialize_error = codes "ERR_BORCH_SERIALIZE"
message one_yocto_attach_error = codes "ERR_ONE_YOCTO_ATACH"
message private_call_error = codes "ERR_PRIVATE_CALL"
message bad_utf8_string = codes "ERR_BAD_UTF8_STRING"
message bad_number = codes "ERR_BAD_NUMBER"
