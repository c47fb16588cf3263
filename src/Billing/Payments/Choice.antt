-- ===== src/Billing/Payments/Choice.antt =====
-- Which provider the payment service works with, by the settings of the application.
use text.Mathlib.Text.{find?}
use multi_agent_ai_system.Prelude.{
  String, str_eq, mem_str, Bool, true, false, not, ◌&&◌, ◌||◌, Option, none, some, [], ◌∷◌,
  if◌then◌else◌,
}
use multi_agent_ai_system.Prelude.Text.{lower, strip}
use multi_agent_ai_system.Core.Exceptions.{Exception, app_exception, Result, ok, err}

pub record Settings : Type 0 where
  pub app_env : String
  pub payment_provider : String
  pub midtrans_server_key : String
  pub midtrans_is_sandbox : Bool

-- The provider that is made: the one of Midtrans with its key, or the fake one.
pub data Chosen : Type 0 where
  midtrans : String → Bool → Chosen
  fake : Chosen

-- A provider's `provider_name`
abbrev pub name_of : Chosen → String
name_of (midtrans key sandbox) = "midtrans"
name_of fake = "fake"

abbrev pub payment_configuration_error : Exception
payment_configuration_error = app_exception "PAYMENT_CONFIGURATION_ERROR" 500

-- `not key or "mock" in key.lower()`
abbrev pub has_no_key : String → Bool
has_no_key key = str_eq key "" || elim (find? (lower key) "mock") [ none ↦ false | some _ ↦ true ]

unfoldable pub get_default_payment_provider : Settings → Result Chosen
get_default_payment_provider settings =
    let env = lower settings.app_env in
    let provider_type = lower settings.payment_provider in
    if mem_str env ("production" ∷ "staging" ∷ [])
    then if str_eq provider_type "" || str_eq provider_type "fake"
      then err payment_configuration_error
      else if str_eq provider_type "midtrans"
      then if has_no_key settings.midtrans_server_key
        then err payment_configuration_error
        else ok (midtrans settings.midtrans_server_key settings.midtrans_is_sandbox)
      else err payment_configuration_error
    else if mem_str env ("development" ∷ "testing" ∷ [])
    then if str_eq provider_type "midtrans" && not (has_no_key settings.midtrans_server_key)
      then ok (midtrans settings.midtrans_server_key settings.midtrans_is_sandbox)
      else ok fake
    else err payment_configuration_error

-- `PaymentService.__init__`: the name of the provider that the service works with, where `given` is
-- the name of a provider that was passed in.
unfoldable pub init_provider : Settings → Option String → Result String
unfolding get_default_payment_provider
init_provider settings none = elim (get_default_payment_provider settings) [
  | ok chosen ↦ ok (name_of chosen)
  | err e ↦ err e
]
init_provider settings (some given) =
    if str_eq (strip given) ""
    then err payment_configuration_error
    else if mem_str (lower settings.app_env) ("production" ∷ "staging" ∷ [])
        && str_eq (lower (strip given)) "fake"
    then err payment_configuration_error
    else ok given
