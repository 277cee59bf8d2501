-- ===== src/Opcode/Tests.antt =====
-- The table of opcode properties at concrete opcodes.
use gopher_lua.Prelude.{◌≤◌, ◌≡◌, some}
use gopher_lua.Opcode.{op_call, op_code, op_code_max, op_props}
use gopher_lua.Opcode.Table.{name_at, op_name, op_props-op_code}

props_of_opcode :
    (op_code op_call ≤ op_code_max) × (name_at (op_code op_call) op_props ≡ some (op_name op_call))
props_of_opcode = op_props-op_code op_call
