-- ===== src/Status.antt =====
-- Errors as the driver makes and tests them (driver/*.go): gRPC statuses, `fmt.Errorf`, and errors
-- of the Thalassa client. A message is its format; what is formatted into it is not modelled.
use csi_thalassa.Prelude.{Bool, true, false, String, ◌<>◌}

pub data Code : Type 0 where
  invalid_argument not_found already_exists resource_exhausted : Code
  failed_precondition aborted out_of_range unimplemented internal : Code

pub data Error : Type 0 where
  -- `status.Error(code, message)`
  status : Code → String → Error
  -- `errors.New`, and `fmt.Errorf` without `%w`
  plain : String → Error
  -- `fmt.Errorf("message: %w", err)`
  wrap : String → Error → Error
  -- an error of the client library; the flag says whether it is its `ErrNotFound`
  api : Bool → String → Error
  -- a run-time panic: a nil dereference, an index or slice out of range
  panic : Error

-- `client.IsNotFound`, which is `errors.Is`: it looks through `%w`.
unfoldable pub is_not_found : Error → Bool
is_not_found (wrap m e) = is_not_found e
is_not_found (api b m) = b
is_not_found _ = false

-- `_, ok := status.FromError(err)`
unfoldable pub is_status : Error → Bool
is_status (status c m) = true
is_status (wrap m e) = is_status e
is_status _ = false

code_name : Code → String
code_name invalid_argument = "InvalidArgument"
code_name not_found = "NotFound"
code_name already_exists = "AlreadyExists"
code_name resource_exhausted = "ResourceExhausted"
code_name failed_precondition = "FailedPrecondition"
code_name aborted = "Aborted"
code_name out_of_range = "OutOfRange"
code_name unimplemented = "Unimplemented"
code_name internal = "Internal"

-- `err.Error()`
unfoldable pub text : Error → String
unfolding code_name
text (status c m) = "rpc error: code = " <> code_name c <> " desc = " <> m
text (plain m) = m
text (wrap m e) = m <> ": " <> text e
text (api b m) = m
text panic = "runtime error"
