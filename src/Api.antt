-- ===== src/Api.antt =====
-- internal/api/server/server.gen.go, the generated server of the policy API: the parameters and the
-- errors of its requests, and the interface that the handlers implement. The program gives it no
-- middlewares and no error handlers of its own, so those are the ones of NewStrictHandler and
-- HandlerWithOptions.
pub mod Responses
pub mod Strict
pub mod Routing
pub mod Confined
pub mod Fitting
pub mod Refusing
use dcm_policy_manager.Prelude.{ℕ, String, Option, none, some, [], ◌∷◌, Result, concat}
use dcm_policy_manager.Prelude.Int.{ℤ}
use dcm_policy_manager.PolicyApi.{ErrorBody, ServerPolicy, ServerPolicyList}
use dcm_policy_manager.Http.{Codec, Writer, write_header}

pub record Health : Type 0 where
  pub path : Option String
  pub status : String

pub record ListPoliciesParams : Type 0 where
  pub page_token : Option String
  pub max_page_size : Option ℤ
  pub filter : Option String
  pub order_by : Option String

pub record CreatePolicyParams : Type 0 where
  pub id : Option String

-- The errors of parameters; the server makes only those of the fifth kind. An error is its message.
pub data ParamError : Type 0 where
  unescaped_cookie_param : (param_name : String) (err : String) → ParamError
  unmarshaling_param : (param_name : String) (err : String) → ParamError
  required_param : (param_name : String) → ParamError
  required_header : (param_name : String) (err : String) → ParamError
  invalid_param_format : (param_name : String) (err : String) → ParamError
  too_many_values_for_param : (param_name count : String) → ParamError

-- Error; a count is given as it is printed
unfoldable pub error_text : ParamError → String
error_text (unescaped_cookie_param name e) =
    concat ("error unescaping cookie parameter '" ∷ name ∷ "'" ∷ [])
error_text (unmarshaling_param name e) =
    concat ("Error unmarshaling parameter " ∷ name ∷ " as JSON: " ∷ e ∷ [])
error_text (required_param name) =
    concat ("Query argument " ∷ name ∷ " is required, but not found" ∷ [])
error_text (required_header name e) =
    concat ("Header parameter " ∷ name ∷ " is required, but not found" ∷ [])
error_text (invalid_param_format name e) =
    concat ("Invalid format for parameter " ∷ name ∷ ": " ∷ e ∷ [])
error_text (too_many_values_for_param name count) =
    concat ("Expected one value for " ∷ name ∷ ", got " ∷ count ∷ [])

-- Unwrap, of the errors that have it
unfoldable pub unwrap : ParamError → Option String
unwrap (unescaped_cookie_param name e) = some e
unwrap (unmarshaling_param name e) = some e
unwrap (required_header name e) = some e
unwrap (invalid_param_format name e) = some e
unwrap _ = none

-- the methods of Unimplemented, which are all the same
abbrev pub unimplemented : Writer → Writer
unimplemented w = write_header 501 w

-- encoding/json at the types of the bodies
pub record ServerCodecs : Type 0 where
  pub health : Codec Health
  pub policy : Codec ServerPolicy
  pub policy_list : Codec ServerPolicyList
  pub error : Codec ErrorBody
