-- ===== src/Replanner/Timeouts.antt =====
-- FailureAnalyzer.classifyFailure: what is classified as a timeout.
use moon_bot.Prelude.{
  String, ◌≡◌, Bool, true, false, ◌||◌, Option, none, some, [], ◌∷◌, arith, if◌then◌else◌,
}
use moon_bot.Replanner.Types.{
  ToolFailure, ErrorCode, JsError, network_failure, permission_denied, invalid_input,
  tool_not_found, resource_exhausted, timeout, unknown,
}
use moon_bot.Replanner.Analyzer.{
  includes, is_one_of, includes_one_of, classify_by_error_code, classify_lowered, classify_by_error,
  classify_error, classify_result, classify_failure,
}

ladder :
    (a b c d e g : Bool)
    → (if a
        then network_failure
        else (if b
            then permission_denied
            else (if c
                then invalid_input
                else (if d
                    then tool_not_found
                    else (if e then resource_exhausted else (if g then timeout else unknown))))))
      ≡ timeout
    → (a ≡ false) × (g ≡ true)
ladder a b c d e g h = ground (arith, h)

code_words :
    (code message : String)
    → is_one_of code (
          "NETWORK_ERROR" ∷ "CONNECTION_ERROR" ∷ "TIMEOUT" ∷ "ECONNREFUSED" ∷ "ENOTFOUND"
          ∷ "ETIMEDOUT" ∷ [])
        || includes_one_of message ("network" ∷ "timeout" ∷ "ECONNREFUSED" ∷ [])
      ≡ false
    → is_one_of code ("TIMEOUT" ∷ "ETIMEDOUT" ∷ [])
        || includes_one_of message ("timeout" ∷ "timed out" ∷ [])
      ≡ true
    → includes message "timed out" ≡ true
unfolding is_one_of includes_one_of
code_words code message h g = ground (arith, h, g)

code_timeout :
    (code message : String)
    → classify_by_error_code code message ≡ timeout
    → includes message "timed out" ≡ true
unfolding classify_by_error_code
code_timeout code message h = let l = ladder _ _ _ _ _ _ h in code_words code message l.0 l.1

lowered_words :
    (message name : String)
    → includes_one_of message
          ("network" ∷ "econnrefused" ∷ "enotfound" ∷ "etimedout" ∷ "timeout" ∷ "connection" ∷ [])
        || includes_one_of name ("network" ∷ "timeout" ∷ [])
      ≡ false
    → includes_one_of message ("timeout" ∷ "timed out" ∷ []) || includes name "timeout" ≡ true
    → includes message "timed out" ≡ true
unfolding includes_one_of
lowered_words message name h g = ground (arith, h, g)

lowered_timeout :
    (message name : String)
    → classify_lowered message name ≡ timeout
    → includes message "timed out" ≡ true
unfolding classify_lowered
lowered_timeout message name h = let l = ladder _ _ _ _ _ _ h in lowered_words message name l.0 l.1

abbrev text_of_error : (String → String) → Option JsError → String
text_of_error lower none = ""
text_of_error lower (some e) = lower e.message

abbrev text_of_result : Option ErrorCode → String → String
text_of_result none rest = rest
text_of_result (some e) rest = e.message

-- The message that the classification reads.
abbrev pub text_of : (String → String) → ToolFailure → String
text_of lower f = text_of_result f.result (text_of_error lower f.error)

-- A failure is classified as a timeout only if the message that is read says "timed out".
pub timeout_text :
    (lower : String → String) (f : ToolFailure)
    → classify_failure lower f ≡ timeout
    → includes (text_of lower f) "timed out" ≡ true
unfolding classify_failure classify_result classify_error classify_by_error
timeout_text lower f = on_result f.result
  where
    on_error :
        (o : Option JsError)
        → classify_error lower o ≡ timeout
        → includes (text_of_error lower o) "timed out" ≡ true
    on_error none h = ground (arith, h)
    on_error (some e) h = lowered_timeout (lower e.message) (lower e.name) h

    on_result :
        (o : Option ErrorCode)
        → classify_result o (classify_error lower f.error) ≡ timeout
        → includes (text_of_result o (text_of_error lower f.error)) "timed out" ≡ true
    on_result none h = on_error f.error h
    on_result (some e) h = code_timeout e.code e.message h
