-- ===== src/Optiga/Status.antt =====
-- The statuses of lib/optiga/util and lib/optiga/crypt.
use decada_embedded_example.Optiga.Cmd.Apdu.{CmdStatus, cmd_ok}

-- OPTIGA_LIB_SUCCESS, OPTIGA_LIB_ERROR, OPTIGA_UTIL_ERROR_INVALID_INPUT, and a status of the command
-- library that is handed on.
pub data LibStatus : Type 0 where
  lib_success lib_failure invalid_input : LibStatus
  from_command : CmdStatus → LibStatus

-- CMD_LIB_OK becomes OPTIGA_LIB_SUCCESS; another status is handed on.
abbrev pub handed_on : CmdStatus → LibStatus
handed_on cmd_ok = lib_success
handed_on error = from_command error

-- The same with OPTIGA_LIB_ERROR for any other status.
abbrev pub succeeded : CmdStatus → LibStatus
succeeded cmd_ok = lib_success
succeeded error = lib_failure
