-- ===== src/Wire/Error.antt =====
-- The errors of the generated decoders in pointpay/x/pnp/types/{params,genesis,tx,query}.pb.go. Each file has
-- error variables of its own; `PbFile` says whose variable it is.
use pointpay_chain.Prelude.{ℕ, Outcome}

-- Whose error variables: the four generated files, each with its copy of the varint and skip
-- routines, or the runtime that the fast paths of pointpay/api/pointpay/pnp share.
pub data PbFile : Type 0 where
  params_pb genesis_pb tx_pb query_pb runtime_pb : PbFile

-- The message names that the errors of a decoder print.
pub data Message : Type 0 where
  params_msg genesis_state_msg msg_update_params_msg msg_update_params_response_msg : Message
  query_params_request_msg query_params_response_msg module_msg : Message

pub data PbError : Type 0 where
  -- ErrIntOverflow*, ErrInvalidLength*, ErrUnexpectedEndOfGroup*
  int_overflow invalid_length unexpected_end_of_group : PbFile → PbError
  -- io.ErrUnexpectedEOF
  unexpected_eof : PbError
  -- "wiretype end group for non-group"
  end_group : Message → PbError
  -- "illegal tag %d (wire type %d)"
  illegal_tag : Message → ℕ → ℕ → PbError
  -- "wrong wireType = %d for field ..."
  wrong_wire_type : Message → ℕ → ℕ → PbError
  -- "proto: illegal wireType %d"
  illegal_wire_type : ℕ → PbError

abbrev pub Pb : Type 0 → Type 0
Pb A = Outcome PbError A
