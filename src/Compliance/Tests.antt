-- ===== src/Compliance/Tests.antt =====
-- The theorems on compliance, at concrete inputs.
use signalstack_sms.Prelude.{
  ℕ, ◌≤◌, ◌<◌, String, true, false, Option, none, some, List, [], ◌∷◌, ◌≡◌, ◌≢◌, ◌↔◌, refl, map,
  codes, All,
}
use signalstack_sms.Text.{to_upper, trim_start, is_space}
use signalstack_sms.Compliance.QuietHours.{
  is_within_quiet_hours, local_hour_in_time_zone, window_for_state, is_within_quiet_hours-federal,
}
use signalstack_sms.Compliance.OptOut.{classify_inbound_keyword, classify_inbound_keyword-to_upper}
use signalstack_sms.Compliance.Gates.Defs.{
  ConsentStatus, A2pRegistrationStatus, GateInput, PreflightContact, gate_allows,
  preflight_campaign_recipients,
}
use signalstack_sms.Compliance.Gates.Laws.{
  IsPermitted, Reachable, gate_allows_iff, preflight_campaign_recipients-allowed_iff,
}

abbrev noon : ℕ → String → Option ℕ
noon now zone = some 12

open_at_noon : is_within_quiet_hours (map to_upper) noon 5 "UTC" (some (codes "fl")) ≡ false
unfolding is_within_quiet_hours local_hour_in_time_zone window_for_state to_upper is_space
    trim_start
open_at_noon = refl

federal_example :
    (hour : ℕ) × (local_hour_in_time_zone noon 5 "UTC" ≡ some hour) × (8 ≤ hour) × (hour < 21)
federal_example =
    is_within_quiet_hours-federal (map to_upper) noon 5 "UTC" (some (codes "fl")) open_at_noon

stop_example :
    classify_inbound_keyword (map to_upper (codes " stop, now"))
    ≡ classify_inbound_keyword (codes " stop, now")
stop_example = classify_inbound_keyword-to_upper (codes " stop, now")

abbrev input : GateInput
input = record {
  demo_mode = false;
  live_messaging_enabled = true;
  messaging_provider = "twilio";
  compliance_profile = some (record {
    business_name = codes "Shop";
    messaging_use_case = codes "orders";
    opt_in_description = codes "form";
    privacy_policy_url = codes "p";
    terms_of_service_url = codes "t";
    a2p_registration_status = A2pRegistrationStatus.approved;
  });
  contact = none;
  quiet_hours = some (record { now = 5; time_zone = "UTC"; state = none });
}

gate_example :
    (gate_allows (map to_upper) noon input ≡ true) ↔ IsPermitted (map to_upper) noon input
gate_example = gate_allows_iff (map to_upper) noon input

abbrev contacts : List PreflightContact
contacts =
    record {
      id = "c1";
      phone = "+12125550123";
      consent_status = ConsentStatus.opted_in;
      opted_out_at = none;
      archived_at = none;
    }
    ∷ []

preflight_example :
    ((preflight_campaign_recipients contacts none).allowed ≡ true)
    ↔ ((contacts ≢ []) × All Reachable contacts)
preflight_example = preflight_campaign_recipients-allowed_iff contacts
