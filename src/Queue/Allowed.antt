-- ===== src/Queue/Allowed.antt =====
-- The recipients that a campaign is sent to are contacts that the preflight allows.
use signalstack_sms.Prelude.{
  String, Bool, true, ◌&&◌, Option, none, some, List, [], ◌∷◌, ◌≡◌, refl, sym, ◌∙◌, ap, subst,
  arith, if◌then◌else◌, if_case, option_case, str_eq, eq_iff, keep_if, keep_if-some, find_row,
  find_row-key, map, All, Option-cases, inl, inr,
}
use signalstack_sms.Compliance.Gates.Defs.{
  PreflightContact, PreflightRecipient, preflight_contact, preflight_campaign_recipients, summary,
}
use signalstack_sms.Queue.Model.{Job, Campaign, Contact, Recipient, Store, contact_id, find_contact}
use signalstack_sms.Queue.Process.{
  Addressee, addressee, addressees, preflight_of, is_sendable, sendable,
}

abbrev pub allowed_contact : Contact → Bool
allowed_contact k = (preflight_contact k.card).allowed

-- The contact of an addressee is the row with its identifier, of the job's organization.
pub record IsKnown (claim : Job) (ks : List Contact) (a : Addressee) : Type 0 where
  pub found : find_row contact_id a.recipient.contact_id ks ≡ some a.contact
  pub own : a.contact.org_id ≡ claim.org_id

pub record IsAllowed (claim : Job) (ks : List Contact) (a : Addressee) : Type 0 where
  pub known : IsKnown claim ks a
  pub allowed : allowed_contact a.contact ≡ true

module _ (claim : Job) (c : Campaign) (db : Store) where
  abbrev KnownIf : Option Addressee → Type 0
  KnownIf none = Unit
  KnownIf (some a) = IsKnown claim db.contacts a

  addressee-known : (r : Recipient) → KnownIf (addressee claim c db r)
  unfolding addressee find_contact
  addressee-known r =
      if_case KnownIf (str_eq r.campaign_id c.id && str_eq r.org_id claim.org_id) _ _
        (λ _.
          option_case KnownIf
            (keep_if (λ k. str_eq k.org_id claim.org_id)
              (find_row contact_id r.contact_id db.contacts))
            _ _ (λ _. tt)
            λ k kept.
              let (found, own) =
                keep_if-some (λ k. str_eq k.org_id claim.org_id)
                  (find_row contact_id r.contact_id db.contacts) k kept in
              record { found = found; own = ground (arith, eq_iff k.org_id claim.org_id) })
        (λ _. tt)

  pub addressees-All :
      (rows : List Recipient) → All (IsKnown claim db.contacts) (addressees claim c db rows)
  unfolding addressees
  addressees-All [] = tt
  addressees-All (r ∷ rows) =
      added (addressee claim c db r) (addressee-known r) (addressees-All rows)
    where
      added :
          (o : Option Addressee)
          → KnownIf o
          → All (IsKnown claim db.contacts) (addressees claim c db rows)
          → All (IsKnown claim db.contacts) (elim o [
            | none ↦ addressees claim c db rows
            | some a ↦ a ∷ addressees claim c db rows
          ])
      added none k h = h
      added (some a) k h = (k, h)

abbrev pub cards : List Addressee → List PreflightContact
cards group = map (λ a. a.contact.card) group

preflight_contact-id : (c : PreflightContact) → (preflight_contact c).contact_id ≡ c.id
unfolding preflight_contact
preflight_contact-id c = refl

last_entry :
    (entry : PreflightRecipient) (id : String) (p : PreflightRecipient)
    (o : Option PreflightRecipient)
    → o ≡ none
    → elim o [
      | some later ↦ some later
      | none ↦ if str_eq entry.contact_id id then some entry else none
    ]
      ≡ some p
    → (entry.contact_id ≡ id) × (entry ≡ p)
last_entry entry id p none h e = ground (arith, eq_iff entry.contact_id id)
last_entry entry id p (some q) h e = absurd (cc)

module _ (claim : Job) (ks : List Contact) where
  preflight_of-known :
      (id : String) (p : PreflightRecipient) (group : List Addressee)
      → All (IsKnown claim ks) group
      → preflight_of id (map preflight_contact (cards group)) ≡ some p
      → (k : Contact) × (find_row contact_id id ks ≡ some k) × (p ≡ preflight_contact k.card)
  unfolding preflight_of
  preflight_of-known id p [] h e = absurd (cc)
  preflight_of-known id p (a ∷ group) (k, h) e =
      elim (Option-cases (preflight_of id (map preflight_contact (cards group)))) [
        | inr (q, later) ↦ preflight_of-known id p group h (later ∙ ground arith)
        | inl last ↦
            let entry = preflight_contact a.contact.card in
            let (hit, eq) =
              last_entry entry id p (preflight_of id (map preflight_contact (cards group))) last
                e in
            let key : a.contact.card.id ≡ id = sym (preflight_contact-id a.contact.card) ∙ hit in
            let same : a.contact.card.id ≡ a.recipient.contact_id =
              find_row-key contact_id a.recipient.contact_id ks a.contact k.found in
            (
              a.contact,
              subst (λ x. find_row contact_id x ks ≡ some a.contact) (sym same ∙ key) k.found,
              sym eq,
            )
      ]

  -- An addressee that passes the preflight of its campaign is an allowed contact.
  sendable-IsAllowed :
      (all_of : List Addressee) (a : Addressee)
      → All (IsKnown claim ks) all_of
      → IsKnown claim ks a
      → is_sendable (map preflight_contact (cards all_of)) a ≡ true
      → IsAllowed claim ks a
  unfolding is_sendable
  sendable-IsAllowed all_of a h k pass =
      elim (Option-cases
        (preflight_of a.recipient.contact_id (map preflight_contact (cards all_of)))) [
          | inl missing ↦ absurd (ground arith)
          | inr (p, found) ↦
              let (b, row, same) = preflight_of-known a.recipient.contact_id p all_of h found in
              let one : b ≡ a.contact = ground (arith, k.found) in
              record {
                known = k;
                allowed =
                    ap (λ x. allowed_contact x) (sym one)
                    ∙ ap (λ x. x.allowed) (sym same)
                    ∙ ground arith;
              }
        ]

  sendable-All :
      (all_of group : List Addressee)
      → All (IsKnown claim ks) all_of
      → All (IsKnown claim ks) group
      → All (IsAllowed claim ks) (sendable (map preflight_contact (cards all_of)) group)
  unfolding sendable
  sendable-All all_of [] h k = tt
  sendable-All all_of (a ∷ group) h (k, ks') =
      let rest = sendable-All all_of group h ks' in
      if_case (All (IsAllowed claim ks)) (is_sendable (map preflight_contact (cards all_of)) a) _ _
        (λ pass. (sendable-IsAllowed all_of a h k pass, rest)) (λ _. rest)

  -- So the addressees that the campaign is sent to are allowed.
  pub sendable-IsAllowed-All :
      (group : List Addressee)
      → All (IsKnown claim ks) group
      → All
          (IsAllowed claim ks)
          (sendable (preflight_campaign_recipients (cards group) none).recipients group)
  unfolding preflight_campaign_recipients summary
  sendable-IsAllowed-All group h = sendable-All group group h h
