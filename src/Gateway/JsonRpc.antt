-- ===== src/Gateway/JsonRpc.antt =====
-- JsonRpcServer (src/gateway/json-rpc.ts). `parse` is `JSON.parse` up to the fields that are read,
-- none for a text that is no JSON or is `null`; `call` is what a handler resolves to, or the message
-- it rejects with. A reply is the object that is written as JSON.
use moon_bot.Prelude.{String, Option, none, some, [], ◌∷◌, ◌==◌, if◌then◌else◌}
use moon_bot.JsMap
use moon_bot.JsMap.{JsMap}

-- `typeof params`, where it is there and not null.
pub data Params : Type 0 where
  absent : Params
  structured : String → Params
  primitive : String → Params

pub record RpcMessage : Type 0 where
  pub jsonrpc : Option String
  pub id : Option String
  pub method : Option String
  pub params : Params

pub data ErrorCode : Type 0 where
  parse_error invalid_request method_not_found invalid_params internal_error : ErrorCode

pub data Body : Type 0 where
  result : String → Body
  error : ErrorCode → String → Option String → Body

pub record Response : Type 0 where
  pub id : Option String
  pub body : Body

pub data Called : Type 0 where
  returned : String → Called
  threw : String → Called

-- The handlers, each by a name.
abbrev pub Handlers : Type 0
Handlers = JsMap String

unfoldable pub register : String → String → Handlers → Handlers
register method handler hs = JsMap.set method handler hs

unfoldable pub register_batch : Handlers → Handlers → Handlers
register_batch [] hs = hs
register_batch ((method, handler) ∷ more) hs = register_batch more (register method handler hs)

unfoldable pub unregister : String → Handlers → Handlers
unregister method hs = JsMap.delete method hs

abbrev create_error : Option String → ErrorCode → String → Option String → Response
create_error id code message details = record { id = id; body = error code message details }

abbrev answer_to : Option String → Called → Response
answer_to id (returned value) = record { id = id; body = result value }
answer_to id (threw message) = create_error id internal_error "Internal error" (some message)

module _ (parse : String → Option RpcMessage) (call : String → Params → Called) where
  abbrev call_with : Params → String → Option String → Response
  call_with (primitive text) handler id =
      create_error id invalid_params "Invalid params" (some "params must be an object or array")
  call_with absent handler id = answer_to id (call handler absent)
  call_with (structured text) handler id = answer_to id (call handler (structured text))

  abbrev handle_found : Option String → RpcMessage → Response
  handle_found none m = create_error m.id method_not_found "Method not found" none
  handle_found (some handler) m = call_with m.params handler m.id

  unfoldable pub handle_request : String → RpcMessage → Handlers → Response
  handle_request method m hs = handle_found (JsMap.get method hs) m

  -- An empty method is falsy.
  abbrev handle_method : Option String → RpcMessage → Handlers → Response
  handle_method none m hs = create_error m.id invalid_request "Invalid Request" none
  handle_method (some method) m hs =
      if method == ""
      then create_error m.id invalid_request "Invalid Request" none
      else handle_request method m hs

  abbrev handle_version : Option String → RpcMessage → Handlers → Response
  handle_version none m hs = create_error none invalid_request "Invalid Request" none
  handle_version (some version) m hs =
      if version == "2.0"
      then handle_method m.method m hs
      else create_error none invalid_request "Invalid Request" none

  abbrev handle_parsed : Option RpcMessage → Handlers → Response
  handle_parsed none hs = create_error none parse_error "Parse error" none
  handle_parsed (some m) hs = handle_version m.jsonrpc m hs

  unfoldable pub handle_message : String → Handlers → Response
  handle_message text hs = handle_parsed (parse text) hs
