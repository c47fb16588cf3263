-- ===== src/Billing/Payments/Safety.antt =====
-- Which provider a deployment works with, and what a failed payment leaves behind.
use multi_agent_ai_system.Prelude.{
  String, str_eq, mem_str, Bool, true, false, Option, none, some, [], ◌∷◌, ◌≡◌, refl, arith,
}
use multi_agent_ai_system.Prelude.Text.{lower, strip}
use multi_agent_ai_system.Core.Exceptions.{Result, ok, err}
use multi_agent_ai_system.Billing.Payments.Choice.{
  Settings, Chosen, midtrans, fake, name_of, get_default_payment_provider, init_provider,
}

abbrev is_live : Settings → Bool
is_live settings = mem_str (lower settings.app_env) ("production" ∷ "staging" ∷ [])

live_default :
    (settings : Settings) (chosen : Chosen)
    → is_live settings ≡ true
    → get_default_payment_provider settings ≡ ok chosen
    → name_of chosen ≡ "midtrans"
unfolding get_default_payment_provider
live_default settings (midtrans key sandbox) live h = refl
live_default settings fake live h = ground arith

named : Result Chosen → Result String
named (ok chosen) = ok (name_of chosen)
named (err e) = err e

live_name :
    (settings : Settings) (r : Result Chosen) (name : String)
    → is_live settings ≡ true
    → get_default_payment_provider settings ≡ r
    → named r ≡ ok name
    → name ≡ "midtrans"
unfolding named
live_name settings (ok chosen) name live h k = ground (arith, live_default settings chosen live h)
live_name settings (err e) name live h k = ground arith

-- In production and staging the payment service never works with the fake provider, whether it is
-- chosen by the settings or passed in.
pub live-not_fake :
    (settings : Settings) (given : Option String) (name : String)
    → mem_str (lower settings.app_env) ("production" ∷ "staging" ∷ []) ≡ true
    → init_provider settings given ≡ ok name
    → str_eq (lower (strip name)) "fake" ≡ false
unfolding init_provider named lower strip
live-not_fake settings none name live chosen =
    rw (live_name settings (get_default_payment_provider settings) name live refl chosen) refl
live-not_fake settings (some given) name live chosen = ground arith
