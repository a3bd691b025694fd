-- ===== src/Compliance/Gates/Laws.antt =====
-- What the gate and the preflight let through.
use signalstack_sms.Prelude.{
  ℕ, ◌≤◌, String, Bool, true, false, Option, none, some, List, [], ◌∷◌, ◌++◌, map, ◌≡◌, refl, ◌≢◌,
  ◌↔◌, arith, length, All, eq_iff, str_eq, not,
}
use signalstack_sms.Text.{Text}
use signalstack_sms.Compliance.Gates.Defs.{
  GateInput, GateContact, ConsentStatus, opted_in, BlockReason, gate_reasons, gate_allows,
  recipient_reasons, contact_reasons, quiet_reasons, PreflightContact,
  has_complete_consent_evidence, compliance_profile_is_complete, resolved_zone, resolved_state,
  reason_if, QuietHoursInput, PreflightRecipient, count_allowed, preflight_contact, a2p_is_approved,
  preflight_campaign_recipients,
}
use signalstack_sms.Compliance.QuietHours.{is_within_quiet_hours}

reason_if-nil : (b : Bool) (r : BlockReason) → reason_if b r ≡ [] → b ≡ false
reason_if-nil true r e = ground arith
reason_if-nil false r e = refl

-- A list put together is empty if its parts are, and only then.
append-eq-nil : (xs ys : List BlockReason) → xs ++ ys ≡ [] → (xs ≡ []) × (ys ≡ [])
append-eq-nil [] ys e = (refl, e)
append-eq-nil (x ∷ xs) ys e = cc

-- The reasons pushed one after the other are none if no test and neither part pushed one.
pushed-nil :
    (a b c d f : Bool) (cs qs : List BlockReason)
    → reason_if a BlockReason.live_messaging_disabled
        ++ (reason_if b BlockReason.demo_mode_enabled
            ++ (reason_if c BlockReason.dummy_provider_selected
                ++ (reason_if d BlockReason.compliance_profile_incomplete
                    ++ (reason_if f BlockReason.a2p_not_approved ++ (cs ++ qs)))))
      ≡ []
    → (a ≡ false) × (b ≡ false) × (c ≡ false) × (d ≡ false) × (f ≡ false) × (cs ≡ []) × (qs ≡ [])
pushed-nil a b c d f cs qs e = ground (arith, append-eq-nil cs qs)

-- A recipient who may be written to: not archived, opted in, and without an opt-out.
pub record IsReachable (archived_at : Option ℕ) (status : ConsentStatus) (opted_out_at : Option ℕ)
    : Type 0 where
  pub not_archived : archived_at ≡ none
  pub consented : status ≡ opted_in
  pub not_opted_out : opted_out_at ≡ none

pub recipient_reasons-nil_iff :
    (archived : Option ℕ) (status : ConsentStatus) (out : Option ℕ)
    → (recipient_reasons archived status out ≡ []) ↔ IsReachable archived status out
unfolding recipient_reasons
recipient_reasons-nil_iff archived status out = (λ e. ground arith, λ h. ground arith)

-- A contact to whom a live message may go: reachable, with complete evidence of consent.
abbrev pub ContactPermits : Option GateContact → Type 0
ContactPermits none = Unit
ContactPermits (some c) =
    IsReachable c.archived_at c.consent_status c.opted_out_at
    × (has_complete_consent_evidence c.evidence ≡ true)

contact_reasons-nil_iff : (c : Option GateContact) → (contact_reasons c ≡ []) ↔ ContactPermits c
unfolding contact_reasons
contact_reasons-nil_iff none = (λ e. tt, λ h. refl)
contact_reasons-nil_iff (some c) = (
  λ e.
      let (first, second) = append-eq-nil _ _ e in
      ((recipient_reasons-nil_iff _ _ _).0 first, ground (arith, reason_if-nil _ _ second)),
  λ (h, k). rw ((recipient_reasons-nil_iff _ _ _).1 h, k),
)

module _ (upper_case : Text → Text) (format_hour : ℕ → String → Option ℕ) where
  abbrev pub HourPermits : Option GateContact → Option QuietHoursInput → Type 0
  HourPermits c none = Unit
  HourPermits c (some q) =
      is_within_quiet_hours upper_case format_hour q.now (resolved_zone c q) (resolved_state c q)
      ≡ false

  pub record IsPermitted (i : GateInput) : Type 0 where
    pub live : i.live_messaging_enabled ≡ true
    pub not_demo : i.demo_mode ≡ false
    pub real_provider : i.messaging_provider ≢ "dummy"
    pub profile : compliance_profile_is_complete i.compliance_profile ≡ true
    pub registered : a2p_is_approved i.compliance_profile ≡ true
    pub recipient : ContactPermits i.contact
    pub awake : HourPermits i.contact i.quiet_hours

  quiet_reasons-nil_iff :
      (c : Option GateContact) (q : Option QuietHoursInput)
      → (quiet_reasons upper_case format_hour c q ≡ []) ↔ HourPermits c q
  unfolding quiet_reasons
  quiet_reasons-nil_iff c none = (λ e. tt, λ h. refl)
  quiet_reasons-nil_iff c (some q) = (λ e. reason_if-nil _ _ e, λ h. rw h)

  gate_reasons-nil : (i : GateInput) → gate_reasons upper_case format_hour i ≡ [] → IsPermitted i
  unfolding gate_reasons
  gate_reasons-nil i e =
      let dummy : Bool = str_eq i.messaging_provider "dummy" in
      let complete : Bool = compliance_profile_is_complete i.compliance_profile in
      let parts =
        pushed-nil (not i.live_messaging_enabled) i.demo_mode dummy (not complete)
          (not (a2p_is_approved i.compliance_profile)) (contact_reasons i.contact)
          (quiet_reasons upper_case format_hour i.contact i.quiet_hours) e in
      record {
        live = ground (arith, parts.0);
        not_demo = parts.1;
        real_provider = ground (arith, parts.2, eq_iff i.messaging_provider "dummy");
        profile = ground (arith, parts.3);
        registered = ground (arith, parts.4);
        recipient = (contact_reasons-nil_iff i.contact).0 parts.5;
        awake = (quiet_reasons-nil_iff i.contact i.quiet_hours).0 parts.6;
      }

  gate_reasons_of_IsPermitted :
      (i : GateInput) → IsPermitted i → gate_reasons upper_case format_hour i ≡ []
  unfolding gate_reasons
  gate_reasons_of_IsPermitted i p =
      let named : str_eq i.messaging_provider "dummy" ≡ false =
        ground (arith, p.real_provider, eq_iff i.messaging_provider "dummy") in
      rw (
        p.live,
        p.not_demo,
        named,
        p.profile,
        p.registered,
        (contact_reasons-nil_iff i.contact).1 p.recipient,
        (quiet_reasons-nil_iff i.contact i.quiet_hours).1 p.awake,
      )

  -- The hard gate lets a message through exactly if live messaging is enabled outside demo mode with
  -- a real provider, the compliance profile is complete and approved, the contact (where one is
  -- given) is not archived, opted in, not opted out and has complete evidence of consent, and (where
  -- quiet hours are given) the recipient's hour is not within them.
  pub gate_allows_iff :
      (i : GateInput) → (gate_allows upper_case format_hour i ≡ true) ↔ IsPermitted i
  unfolding gate_allows
  gate_allows_iff i = (
    λ e. gate_reasons-nil i (ground arith),
    λ p. rw (gate_reasons_of_IsPermitted i p, gate_allows),
  )

count_allowed_le : (rs : List PreflightRecipient) → count_allowed rs ≤ length rs
unfolding count_allowed
count_allowed_le [] = omega arith
count_allowed_le (r ∷ rs) = ground (arith, count_allowed_le rs)

count_allowed_full :
    (rs : List PreflightRecipient) → (count_allowed rs ≡ length rs) ↔ All (λ r. r.allowed ≡ true) rs
unfolding count_allowed
count_allowed_full [] = (λ e. tt, λ h. refl)
count_allowed_full (r ∷ rs) = ground (arith, count_allowed_le rs, count_allowed_full rs)

abbrev pub Reachable : PreflightContact → Type 0
Reachable c = IsReachable c.archived_at c.consent_status c.opted_out_at

preflight_contact_iff :
    (c : PreflightContact) → ((preflight_contact c).allowed ≡ true) ↔ Reachable c
unfolding preflight_contact
preflight_contact_iff c =
    let (to, from) = recipient_reasons-nil_iff c.archived_at c.consent_status c.opted_out_at in
    (λ e. to (ground arith), λ h. rw (from h))

All-preflight_contact_iff :
    (cs : List PreflightContact)
    → All (λ r. r.allowed ≡ true) (map preflight_contact cs) ↔ All Reachable cs
All-preflight_contact_iff [] = (λ h. tt, λ h. tt)
All-preflight_contact_iff (c ∷ cs) =
    let (to, from) = preflight_contact_iff c in
    let (tos, froms) = All-preflight_contact_iff cs in
    (λ (h, hs). (to h, tos hs), λ (h, hs). (from h, froms hs))

-- The preflight of a campaign over its contacts passes exactly if there is a contact and every one is
-- reachable: not archived, opted in, and without an opt-out.
pub preflight_campaign_recipients-allowed_iff :
    (cs : List PreflightContact)
    → ((preflight_campaign_recipients cs none).allowed ≡ true) ↔ ((cs ≢ []) × All Reachable cs)
unfolding preflight_campaign_recipients
preflight_campaign_recipients-allowed_iff [] = (λ e. ground arith, λ h. ground (arith, h.0))
preflight_campaign_recipients-allowed_iff (c ∷ cs) =
    let rs : List PreflightRecipient = map preflight_contact (c ∷ cs) in
    let (to, from) = All-preflight_contact_iff (c ∷ cs) in
    let (full, fill) = count_allowed_full rs in
    (
      λ e. (λ h. cc, to (full (ground (arith, count_allowed_le rs)))),
      λ (h, k). ground (arith, fill (from k)),
    )
