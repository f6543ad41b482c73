-- ===== src/Replanner/Analyzer.antt =====
-- FailureAnalyzer (src/agents/replanner/FailureAnalyzer.ts). `lower` is the runtime's toLowerCase.
use Prim.Native.String.{len, find}
use moon_bot.Prelude.{
  String, Bool, true, false, ◌||◌, Option, none, some, List, [], ◌∷◌, leb, ◌==◌, if◌then◌else◌,
}
use moon_bot.Replanner.Types.{
  FailureType, network_failure, permission_denied, invalid_input, tool_not_found,
  resource_exhausted, timeout, unknown, ToolFailure, ErrorCode, JsError,
}

-- `message.includes(part)`.
unfoldable pub includes : String → String → Bool
includes message part = leb (find message part) (len message)

-- `code === a || code === b || …`.
unfoldable pub is_one_of : String → List String → Bool
is_one_of code [] = false
is_one_of code (c ∷ cs) = code == c || is_one_of code cs

unfoldable pub includes_one_of : String → List String → Bool
includes_one_of message [] = false
includes_one_of message (p ∷ ps) = includes message p || includes_one_of message ps

unfoldable pub classify_by_error_code : String → String → FailureType
classify_by_error_code code message =
    if is_one_of code (
        "NETWORK_ERROR" ∷ "CONNECTION_ERROR" ∷ "TIMEOUT" ∷ "ECONNREFUSED" ∷ "ENOTFOUND"
        ∷ "ETIMEDOUT" ∷ [])
      || includes_one_of message ("network" ∷ "timeout" ∷ "ECONNREFUSED" ∷ [])
    then network_failure
    else (if is_one_of code ("PERMISSION_DENIED" ∷ "APPROVAL_DENIED" ∷ "EACCES" ∷ "EPERM" ∷ [])
          || includes_one_of message ("permission" ∷ "unauthorized" ∷ "forbidden" ∷ "denied" ∷ [])
        then permission_denied
        else (if is_one_of code
                ("INVALID_INPUT" ∷ "VALIDATION_ERROR" ∷ "SCHEMA_VALIDATION_FAILED" ∷ [])
              || includes_one_of message ("validation" ∷ "invalid input" ∷ "schema" ∷ [])
            then invalid_input
            else (if is_one_of code ("TOOL_NOT_FOUND" ∷ "UNKNOWN_TOOL" ∷ [])
                  || includes_one_of message ("not found" ∷ "unknown tool" ∷ [])
                then tool_not_found
                else (if is_one_of code (
                        "RESOURCE_EXHAUSTED" ∷ "CONCURRENCY_LIMIT" ∷ "QUOTA_EXCEEDED" ∷ "ENOMEM"
                        ∷ [])
                      || includes_one_of message ("resource" ∷ "quota" ∷ "limit" ∷ [])
                    then resource_exhausted
                    else (if is_one_of code ("TIMEOUT" ∷ "ETIMEDOUT" ∷ [])
                          || includes_one_of message ("timeout" ∷ "timed out" ∷ [])
                        then timeout
                        else unknown)))))

unfoldable pub classify_lowered : String → String → FailureType
classify_lowered message name =
    if includes_one_of message
        ("network" ∷ "econnrefused" ∷ "enotfound" ∷ "etimedout" ∷ "timeout" ∷ "connection" ∷ [])
      || includes_one_of name ("network" ∷ "timeout" ∷ [])
    then network_failure
    else (if includes_one_of message
            ("permission" ∷ "eacces" ∷ "eperm" ∷ "unauthorized" ∷ "forbidden" ∷ "denied" ∷ [])
          || includes name "permission"
        then permission_denied
        else (if includes_one_of message ("validation" ∷ "invalid" ∷ "schema" ∷ [])
              || includes name "validation"
            then invalid_input
            else (if includes_one_of message ("not found" ∷ "unknown" ∷ [])
                  || includes name "notfound"
                then tool_not_found
                else (if includes_one_of message ("resource" ∷ "quota" ∷ "limit" ∷ "enomem" ∷ [])
                      || includes name "resource"
                    then resource_exhausted
                    else (if includes_one_of message ("timeout" ∷ "timed out" ∷ [])
                          || includes name "timeout"
                        then timeout
                        else unknown)))))

unfoldable pub classify_by_error : (String → String) → JsError → FailureType
classify_by_error lower e = classify_lowered (lower e.message) (lower e.name)

unfoldable pub classify_error : (String → String) → Option JsError → FailureType
classify_error lower none = unknown
classify_error lower (some e) = classify_by_error lower e

unfoldable pub classify_result : Option ErrorCode → FailureType → FailureType
classify_result none rest = rest
classify_result (some e) rest = classify_by_error_code e.code e.message

unfoldable pub classify_failure : (String → String) → ToolFailure → FailureType
classify_failure lower f = classify_result f.result (classify_error lower f.error)

unfoldable pub is_recoverable : FailureType → Bool
is_recoverable network_failure = true
is_recoverable timeout = true
is_recoverable resource_exhausted = true
is_recoverable permission_denied = false
is_recoverable invalid_input = false
is_recoverable tool_not_found = true
is_recoverable unknown = true

pub record Recommendation : Type 0 where
  pub can_retry : Bool
  pub can_use_alternative : Bool
  pub needs_approval : Bool

abbrev recommend : Bool → Bool → Bool → Recommendation
recommend r a n = record { can_retry = r; can_use_alternative = a; needs_approval = n }

unfoldable pub get_recommended_action : FailureType → Recommendation
get_recommended_action network_failure = recommend true true false
get_recommended_action timeout = recommend true true false
get_recommended_action resource_exhausted = recommend true true false
get_recommended_action permission_denied = recommend false false true
get_recommended_action invalid_input = recommend false false false
get_recommended_action tool_not_found = recommend false true false
get_recommended_action unknown = recommend true true false
