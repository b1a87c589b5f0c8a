-- ===== src/Types/Programs.antt =====
-- types.go: Lua merge programs.
use sink_go.Base.{not, Bytes, bytes_eq, is_empty, Result, ok, ◌>>◌, fail_if}
use sink_go.Errors.{Error, new}
use sink_go.Libraries.{Libraries}

pub record LuaProgram : Type 0 where
  pub source : Bytes
  pub sha256 : Bytes

module _ (lib : Libraries) where
  open lib use {sha256_sum}

  unfoldable pub new_lua_program : Bytes → Result Error LuaProgram
  new_lua_program source = do
    fail_if (is_empty source) (new "lua merge program source is required")
    ok (record { source = source; sha256 = sha256_sum source })

  -- `LuaProgram.validate`
  unfoldable pub validate_program : LuaProgram → Result Error (Unit {0})
  validate_program p = do
    fail_if (is_empty p.source) (new "lua merge program source is required")
    fail_if (not (bytes_eq (sha256_sum p.source) p.sha256))
        (new "lua merge program source was modified")
    ok tt
