-- ===== src/ErrCode.antt =====
-- The error codes of errcode/errorcode.go that the code returns.
use Prim.Native.Nat.{ℕ, ◌-◌, ◌^◌}

pub data ErrCode : Type 0 where
  unknown marshal_fail unmarshal_fail network_fail parameter_invalid unknown_message : ErrCode
  gamesvr_error token_invalid account_replaced server_busy im_svr_not_found player_no_online :
      ErrCode

-- The number of a code, an int32, as its bit pattern.
unfoldable pub number : ErrCode → ℕ
number unknown = 2 ^ 32 - 1
number marshal_fail = 2 ^ 32 - 4
number unmarshal_fail = 2 ^ 32 - 5
number network_fail = 2 ^ 32 - 6
number parameter_invalid = 2 ^ 32 - 7
number unknown_message = 2 ^ 32 - 8
number gamesvr_error = 2 ^ 32 - 9
number token_invalid = 2 ^ 32 - 10
number account_replaced = 2 ^ 32 - 11
number server_busy = 2 ^ 32 - 12
number im_svr_not_found = 2 ^ 32 - 13
number player_no_online = 2 ^ 32 - 14
