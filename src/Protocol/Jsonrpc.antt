-- ===== src/Protocol/Jsonrpc.antt =====
-- The JSON-RPC messages of protocol/protocol_jsonrpc.go. An empty or absent json.RawMessage is
-- `none`; `raw_data` is the field Data.
use kimi_wire_go.Prelude.{String, Option}
use kimi_wire_go.Prelude.Int.{ℤ, negsuc}

pub record JsonRpcError (Raw : Type 0) : Type 0 where
  pub code : ℤ
  pub message : String
  pub raw_data : Option Raw

pub record RawWireMessage (Raw : Type 0) : Type 0 where
  pub jsonrpc : String
  pub id : String
  pub method : String
  pub params : Option Raw
  pub result : Option Raw
  pub error : Option (JsonRpcError Raw)

-- -32601
abbrev pub method_not_found : ℤ
method_not_found = negsuc 32600
