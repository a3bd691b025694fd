-- ===== src/Compliance/Gates/Defs.antt =====
-- The evaluations themselves. `null` and `undefined` are `none`; a `Date` that may be invalid is an
-- `Option ℕ`, so `consent_captured_at` is missing, invalid or a time. A text that is only tested for
-- being empty, or trimmed, is a `Text`.
use signalstack_sms.Prelude.{
  ℕ, ◌+◌, ◌-◌, String, Bool, true, false, not, ◌&&◌, ◌||◌, Option, none, some, List, [], ◌∷◌, ◌++◌,
  map, ltb, ◌==◌, str_eq, if◌then◌else◌, is_some, length,
}
use signalstack_sms.Text.{Text, trim}
use signalstack_sms.Compliance.AreaCodes.{resolve_timezone_from_phone}
use signalstack_sms.Compliance.QuietHours.{is_within_quiet_hours}

pub data ConsentStatus : Type 0 where
  unknown opted_in opted_out pending_double_opt_in : ConsentStatus

pub data A2pRegistrationStatus : Type 0 where
  not_started pending approved rejected : A2pRegistrationStatus

pub data BlockReason : Type 0 where
  live_messaging_disabled demo_mode_enabled dummy_provider_selected compliance_profile_incomplete
        a2p_not_approved contact_archived pending_double_opt_in consent_not_opted_in
        contact_opted_out consent_evidence_missing quiet_hours contact_not_found :
      BlockReason

pub record ComplianceProfile : Type 0 where
  pub business_name : Text
  pub messaging_use_case : Text
  pub opt_in_description : Text
  pub privacy_policy_url : Text
  pub terms_of_service_url : Text
  pub a2p_registration_status : A2pRegistrationStatus

pub record ConsentEvidence : Type 0 where
  pub consent_captured_at : Option (Option ℕ)
  pub consent_method : Option Text
  pub consent_disclosure : Option Text

pub record GateContact : Type 0 where
  pub phone : Option Text
  pub state : Option Text
  pub consent_status : ConsentStatus
  pub opted_out_at : Option ℕ
  pub archived_at : Option ℕ
  pub evidence : ConsentEvidence

pub record QuietHoursInput : Type 0 where
  pub now : ℕ
  pub time_zone : String
  pub state : Option Text

pub record GateInput : Type 0 where
  pub demo_mode : Bool
  pub live_messaging_enabled : Bool
  pub messaging_provider : String
  pub compliance_profile : Option ComplianceProfile
  pub contact : Option GateContact
  pub quiet_hours : Option QuietHoursInput

abbrev pub is_opted_in : ConsentStatus → Bool
is_opted_in opted_in = true
is_opted_in _ = false

abbrev pub is_opted_out : ConsentStatus → Bool
is_opted_out opted_out = true
is_opted_out _ = false

abbrev pub is_pending : ConsentStatus → Bool
is_pending pending_double_opt_in = true
is_pending _ = false

abbrev pub is_approved : A2pRegistrationStatus → Bool
is_approved approved = true
is_approved _ = false

-- A text that is truthy.
abbrev pub non_empty_text : Text → Bool
non_empty_text [] = false
non_empty_text (c ∷ s) = true

abbrev present : Option Text → Bool
present none = false
present (some s) = non_empty_text (trim s)

-- The capture time is there and valid, and the method and the disclosure are not blank.
unfoldable pub has_complete_consent_evidence : ConsentEvidence → Bool
has_complete_consent_evidence e =
    captured e.consent_captured_at && present e.consent_method && present e.consent_disclosure
  where
    captured : Option (Option ℕ) → Bool
    captured none = false
    captured (some none) = false
    captured (some (some t)) = true

unfoldable pub compliance_profile_is_complete : Option ComplianceProfile → Bool
compliance_profile_is_complete none = false
compliance_profile_is_complete (some p) =
    non_empty_text p.business_name
    && non_empty_text p.messaging_use_case
    && non_empty_text p.opt_in_description
    && non_empty_text p.privacy_policy_url
    && non_empty_text p.terms_of_service_url

abbrev pub a2p_is_approved : Option ComplianceProfile → Bool
a2p_is_approved none = false
a2p_is_approved (some p) = is_approved p.a2p_registration_status

-- `if (test) reasons.push(reason)`
abbrev pub reason_if : Bool → BlockReason → List BlockReason
reason_if true r = r ∷ []
reason_if false r = []

abbrev consent_reasons : ConsentStatus → List BlockReason
consent_reasons s =
    if is_pending s
    then BlockReason.pending_double_opt_in ∷ []
    else reason_if (not (is_opted_in s)) consent_not_opted_in

-- The reasons that concern the contact alone, which both checks push in this order.
unfoldable pub recipient_reasons : Option ℕ → ConsentStatus → Option ℕ → List BlockReason
recipient_reasons archived_at status opted_out_at =
    reason_if (is_some archived_at) contact_archived
    ++ (consent_reasons status
        ++ reason_if (is_some opted_out_at || is_opted_out status) contact_opted_out)

unfoldable pub contact_reasons : Option GateContact → List BlockReason
unfolding recipient_reasons
contact_reasons none = []
contact_reasons (some c) =
    recipient_reasons c.archived_at c.consent_status c.opted_out_at
    ++ reason_if (not (has_complete_consent_evidence c.evidence)) consent_evidence_missing

-- The zone and the state of the recipient, where they are known.
unfoldable pub resolved_zone : Option GateContact → QuietHoursInput → String
resolved_zone none q = q.time_zone
resolved_zone (some c) q = zone c.phone
  where
    zone : Option Text → String
    zone none = q.time_zone
    zone (some []) = q.time_zone
    zone (some (d ∷ s)) = resolve_timezone_from_phone (d ∷ s) q.time_zone

unfoldable pub resolved_state : Option GateContact → QuietHoursInput → Option Text
resolved_state none q = q.state
resolved_state (some c) q = chosen c.state
  where
    chosen : Option Text → Option Text
    chosen none = q.state
    chosen (some []) = q.state
    chosen (some (d ∷ s)) = some (d ∷ s)

module _ (upper_case : Text → Text) (format_hour : ℕ → String → Option ℕ) where
  unfoldable pub quiet_reasons : Option GateContact → Option QuietHoursInput → List BlockReason
  quiet_reasons contact none = []
  quiet_reasons contact (some q) =
      reason_if
        (is_within_quiet_hours upper_case format_hour q.now (resolved_zone contact q)
          (resolved_state contact q))
        quiet_hours

  -- The reasons, in the order in which the code pushes them.
  unfoldable pub gate_reasons : GateInput → List BlockReason
  unfolding contact_reasons quiet_reasons
  gate_reasons i =
      reason_if (not i.live_messaging_enabled) live_messaging_disabled
      ++ (reason_if i.demo_mode demo_mode_enabled
          ++ (reason_if (str_eq i.messaging_provider "dummy") dummy_provider_selected
              ++ (reason_if (not (compliance_profile_is_complete i.compliance_profile))
                    compliance_profile_incomplete
                  ++ (reason_if (not (a2p_is_approved i.compliance_profile)) a2p_not_approved
                      ++ (contact_reasons i.contact ++ quiet_reasons i.contact i.quiet_hours)))))

  -- `evaluateMessagingHardGate(input).allowed`
  unfoldable pub gate_allows : GateInput → Bool
  gate_allows i = elim (gate_reasons i) [ [] ↦ true | _ ∷ _ ↦ false ]

pub record PreflightContact : Type 0 where
  pub id : String
  pub phone : String
  pub consent_status : ConsentStatus
  pub opted_out_at : Option ℕ
  pub archived_at : Option ℕ

pub record PreflightRecipient : Type 0 where
  pub contact_id : String
  pub phone : String
  pub allowed : Bool
  pub reasons : List BlockReason

pub record PreflightResult : Type 0 where
  pub allowed : Bool
  pub total_recipients : ℕ
  pub allowed_recipients : ℕ
  pub blocked_recipients : ℕ
  pub recipients : List PreflightRecipient

abbrev pub no_reasons : List BlockReason → Bool
no_reasons [] = true
no_reasons (_ ∷ _) = false

unfoldable pub preflight_contact : PreflightContact → PreflightRecipient
unfolding recipient_reasons
preflight_contact c =
    let reasons = recipient_reasons c.archived_at c.consent_status c.opted_out_at in
    record { contact_id = c.id; phone = c.phone; allowed = no_reasons reasons; reasons = reasons }

missing_contact : String → PreflightRecipient
missing_contact id = record {
  contact_id = id;
  phone = "unknown";
  allowed = false;
  reasons = contact_not_found ∷ [];
}

-- `contactsById.get(id)`: of two contacts with one id the later one is in the map.
by_id : String → List PreflightContact → Option PreflightContact
by_id id [] = none
by_id id (c ∷ cs) = elim (by_id id cs) [
  | some later ↦ some later
  | none ↦ if str_eq c.id id then some c else none
]

selected_recipient : List PreflightContact → String → PreflightRecipient
unfolding by_id preflight_contact missing_contact
selected_recipient cs id = elim (by_id id cs) [
  | none ↦ missing_contact id
  | some c ↦ preflight_contact c
]

-- `[...new Set(ids)]`: the first of equal ids stays.
unfoldable pub distinct_from : List String → List String → List String
distinct_from seen [] = []
distinct_from seen (id ∷ ids) =
    if any_eq id seen then distinct_from seen ids else id ∷ distinct_from (id ∷ seen) ids
  where
    any_eq : String → List String → Bool
    any_eq x [] = false
    any_eq x (y ∷ ys) = str_eq x y || any_eq x ys

unfoldable pub count_allowed : List PreflightRecipient → ℕ
count_allowed [] = 0
count_allowed (r ∷ rs) = (if r.allowed then 1 else 0) + count_allowed rs

unfoldable pub summary : List PreflightRecipient → PreflightResult
unfolding count_allowed
summary rs =
    let blocked = length rs - count_allowed rs in
    record {
      allowed = ltb 0 (length rs) && blocked == 0;
      total_recipients = length rs;
      allowed_recipients = count_allowed rs;
      blocked_recipients = blocked;
      recipients = rs;
    }

unfoldable pub preflight_campaign_recipients :
    List PreflightContact → Option (List String) → PreflightResult
unfolding summary preflight_contact selected_recipient distinct_from
preflight_campaign_recipients cs none = summary (map preflight_contact cs)
preflight_campaign_recipients cs (some ids) =
    summary (map (selected_recipient cs) (distinct_from [] ids))
