-- ===== src/Messaging/Readiness.antt =====
-- lib/messaging/outbox/readiness.ts over the strings of the process environment, and
-- `environmentIsProductionLike` of lib/deployment/production-gate.ts. What other code decides about a
-- value is a field of `Host`: the URL parser, the key parser, `toLowerCase`.
pub mod Laws
use signalstack_sms.Prelude.{
  ℕ, String, Bool, true, false, not, ◌&&◌, ◌||◌, Option, none, some, str_eq, if◌then◌else◌, or_else,
  is_some,
}
use signalstack_sms.Messaging.Model.{Transport, dummy, twilio}

pub record Environment : Type 0 where
  pub worker_enabled : Option String
  pub worker_deployment_class : Option String
  pub runtime_process : Option String
  pub demo_mode : Option String
  pub live_messaging_enabled : Option String
  pub messaging_provider : Option String
  pub app_url : Option String
  pub secrets_master_key : Option String
  pub node_env : Option String
  pub vercel_env : Option String
  pub deployment_env : Option String
  pub app_env : Option String

pub data ReadinessReason : Type 0 where
  worker_disabled worker_process_invalid demo_worker_invalid live_worker_invalid : ReadinessReason

pub data Readiness : Type 0 where
  allowed : Transport → Readiness
  refused : ReadinessReason → Readiness

-- `value === text`
abbrev pub is_text : Option String → String → Bool
is_text none t = false
is_text (some s) t = str_eq s t

module _ (lower_case : String → String) (valid_https_origin valid_master_key : String → Bool) where
  -- An empty value is falsy.
  abbrev pub value_is_production_like : Option String → Bool
  value_is_production_like none = false
  value_is_production_like (some s) =
      not (str_eq s "") && (str_eq (lower_case s) "production" || str_eq (lower_case s) "prod")

  unfoldable pub environment_is_production_like : Environment → Bool
  environment_is_production_like e =
      value_is_production_like e.node_env
      || value_is_production_like e.vercel_env
      || value_is_production_like e.deployment_env
      || value_is_production_like e.app_env

  abbrev passes : (String → Bool) → Option String → Bool
  passes test none = false
  passes test (some s) = test s

  abbrev demo_class_ok : Option String → Bool
  demo_class_ok none = true
  demo_class_ok (some s) = str_eq s "" || str_eq s "local-demo"

  abbrev demo_mode_on : Option String → Bool
  demo_mode_on none = true
  demo_mode_on (some s) = str_eq s "true"

  -- The branch of the dummy provider.
  unfoldable pub dummy_readiness : Environment → Readiness
  dummy_readiness e =
      if environment_is_production_like e
        || is_text e.live_messaging_enabled "true"
        || not (demo_mode_on e.demo_mode)
        || not (demo_class_ok e.worker_deployment_class)
      then refused demo_worker_invalid
      else allowed dummy

  -- The branches of any other provider.
  unfoldable pub live_readiness : Environment → Readiness
  live_readiness e =
      if not (is_text e.worker_enabled "true")
      then refused worker_disabled
      else if not (is_text e.runtime_process "worker") && not (is_text e.runtime_process "all")
      then refused worker_process_invalid
      else if not (is_text e.messaging_provider "twilio")
          || not (is_text e.live_messaging_enabled "true")
          || demo_mode_on e.demo_mode
          || not (is_text e.worker_deployment_class "production-live-direct")
          || not (passes valid_https_origin e.app_url)
          || not (passes valid_master_key e.secrets_master_key)
      then refused live_worker_invalid
      else allowed twilio

  unfoldable pub direct_message_worker_readiness : Environment → Readiness
  direct_message_worker_readiness e =
      if str_eq (or_else e.messaging_provider "dummy") "dummy"
      then dummy_readiness e
      else live_readiness e
