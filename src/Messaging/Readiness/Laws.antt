-- ===== src/Messaging/Readiness/Laws.antt =====
-- Which environments let the worker send, and over what.
use signalstack_sms.Prelude.{
  String, Bool, true, false, ◌||◌, Option, none, some, ◌≡◌, arith, ◌↔◌, str_eq, or_else, eq_iff,
  Bool-cases, inl, inr,
}
use signalstack_sms.Messaging.Model.{dummy, twilio}
use signalstack_sms.Messaging.Readiness.{
  Environment, allowed, is_text, direct_message_worker_readiness, dummy_readiness, live_readiness,
  environment_is_production_like, demo_mode_on, passes,
}

module _ (lower_case : String → String) (valid_https_origin valid_master_key : String → Bool) where
  -- The environment is set up for live sending, in every part.
  pub record IsLiveEnvironment (e : Environment) : Type 0 where
    pub enabled : is_text e.worker_enabled "true" ≡ true
    pub process : (is_text e.runtime_process "worker" || is_text e.runtime_process "all") ≡ true
    pub provider : is_text e.messaging_provider "twilio" ≡ true
    pub live : is_text e.live_messaging_enabled "true" ≡ true
    pub not_demo : demo_mode_on lower_case valid_https_origin valid_master_key e.demo_mode ≡ false
    pub deployment_class : is_text e.worker_deployment_class "production-live-direct" ≡ true
    pub origin :
        passes lower_case valid_https_origin valid_master_key valid_https_origin e.app_url ≡ true
    pub key :
        passes lower_case valid_https_origin valid_master_key valid_master_key e.secrets_master_key
        ≡ true

  live_readiness_iff :
      (e : Environment)
      → (live_readiness lower_case valid_https_origin valid_master_key e ≡ allowed twilio)
        ↔ IsLiveEnvironment e
  unfolding live_readiness
  live_readiness_iff e = (
    λ h. record {
      enabled = ground arith;
      process = ground arith;
      provider = ground arith;
      live = ground arith;
      not_demo = ground arith;
      deployment_class = ground arith;
      origin = ground arith;
      key = ground arith;
    },
    λ l. ground (
      arith, l.enabled, l.process, l.provider, l.live, l.not_demo, l.deployment_class, l.origin,
      l.key,
    ),
  )

  twilio-names :
      (e : Environment)
      → IsLiveEnvironment e
      → str_eq (or_else e.messaging_provider "dummy") "dummy" ≡ false
  twilio-names e l = named e.messaging_provider l.provider
    where
      named :
          (o : Option String)
          → is_text o "twilio" ≡ true
          → str_eq (or_else o "dummy") "dummy" ≡ false
      named none h = cc
      named (some s) h = rw ((eq_iff s "twilio").0 h)

  dummy_readiness-live :
      (e : Environment)
      → dummy_readiness lower_case valid_https_origin valid_master_key e ≡ allowed twilio
      → ⊥
  unfolding dummy_readiness
  dummy_readiness-live e h = ground arith

  -- The worker may send over the live provider exactly if the environment is set up for it in every
  -- part: the worker is enabled, the process runs workers, the provider is the live one, live
  -- messaging is on, demo mode is set and not "true", the deployment class is the live one, the
  -- application's URL is a valid HTTPS origin and the master key is valid.
  pub direct_message_worker_readiness-live_iff :
      (e : Environment)
      → (direct_message_worker_readiness lower_case valid_https_origin valid_master_key e
          ≡ allowed twilio)
        ↔ IsLiveEnvironment e
  unfolding direct_message_worker_readiness
  direct_message_worker_readiness-live_iff e =
      let (to, from) = live_readiness_iff e in
      (
        λ h. elim (Bool-cases (str_eq (or_else e.messaging_provider "dummy") "dummy")) [
          | inl by_dummy ↦ absurd (dummy_readiness-live e (ground arith))
          | inr other ↦ to (ground arith)
        ],
        λ l. rw (twilio-names e l) (from l),
      )

  -- Where the worker may send over the dummy transport, no part of the environment names production,
  -- live messaging is not on, and the provider is unset or the dummy one.
  pub direct_message_worker_readiness-dummy :
      (e : Environment)
      → direct_message_worker_readiness lower_case valid_https_origin valid_master_key e
        ≡ allowed dummy
      → (environment_is_production_like lower_case valid_https_origin valid_master_key e ≡ false)
        × (is_text e.live_messaging_enabled "true" ≡ false)
        × (or_else e.messaging_provider "dummy" ≡ "dummy")
  unfolding direct_message_worker_readiness dummy_readiness live_readiness
  direct_message_worker_readiness-dummy e h = (
    ground arith,
    ground arith,
    (eq_iff (or_else e.messaging_provider "dummy") "dummy").0 (ground arith),
  )
