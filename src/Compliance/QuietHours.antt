-- ===== src/Compliance/QuietHours.antt =====
-- lib/compliance/quiet-hours.ts. `Intl.DateTimeFormat` is the parameter `format_hour`: the number that
-- `Number.parseInt` reads from its output, or `none` for an unknown zone or an unreadable output.
-- `upper_case` is `String.prototype.toUpperCase`.
use signalstack_sms.Prelude.{
  ℕ, ◌%◌, ◌≤◌, ◌<◌, String, Bool, true, false, ◌||◌, Option, none, some, [], ◌∷◌, ltb, leb, ◌==◌,
  if◌then◌else◌, codes, ◌≡◌, arith, ◌&&◌, Option-cases, inl, inr,
}
use signalstack_sms.Text.{Text, trim}

pub record QuietHoursWindow : Type 0 where
  pub start_hour : ℕ
  pub end_hour : ℕ

abbrev window : ℕ → ℕ → QuietHoursWindow
window s e = record { start_hour = s; end_hour = e }

text_eq : Text → Text → Bool
text_eq [] [] = true
text_eq (a ∷ s) (b ∷ t) = a == b && text_eq s t
text_eq _ _ = false

abbrev default_window : QuietHoursWindow
default_window = window 8 21

-- `STATE_WINDOW_OVERRIDES[state]`
state_window_overrides : Text → Option QuietHoursWindow
unfolding text_eq
state_window_overrides s =
    if text_eq s (codes "FL")
    then some (window 8 20)
    else if text_eq s (codes "TX")
    then some (window 9 21)
    else if text_eq s (codes "IN")
    then some (window 9 20)
    else if text_eq s (codes "AL")
    then some (window 8 20)
    else none

module _ (upper_case : Text → Text) where
  -- A missing or empty state has the default window.
  unfoldable pub window_for_state : Option Text → QuietHoursWindow
  unfolding state_window_overrides trim
  window_for_state none = default_window
  window_for_state (some []) = default_window
  window_for_state (some (c ∷ s)) = elim (state_window_overrides (trim (upper_case (c ∷ s)))) [
    | none ↦ default_window
    | some override ↦ override
  ]

module _ (format_hour : ℕ → String → Option ℕ) where
  unfoldable pub local_hour_in_time_zone : ℕ → String → Option ℕ
  local_hour_in_time_zone now zone = elim (format_hour now zone) [
    | none ↦ none
    | some hour ↦ some (hour % 24)
  ]

module _ (upper_case : Text → Text) (format_hour : ℕ → String → Option ℕ) where
  -- Whether sending is blocked; so it is where the hour is not known.
  unfoldable pub is_within_quiet_hours : ℕ → String → Option Text → Bool
  is_within_quiet_hours now zone state = elim (local_hour_in_time_zone format_hour now zone) [
    | none ↦ true
    | some hour ↦
        ltb hour (window_for_state upper_case state).start_hour
        || leb (window_for_state upper_case state).end_hour hour
  ]

-- Every state's window lies inside the federal one, from 8 to 21, and is not empty.
IsNarrower : QuietHoursWindow → Type 0
IsNarrower w = (8 ≤ w.start_hour) × (w.start_hour < w.end_hour) × (w.end_hour ≤ 21)

overrides-IsNarrower :
    (s : Text) (w : QuietHoursWindow) → state_window_overrides s ≡ some w → IsNarrower w
unfolding state_window_overrides IsNarrower
overrides-IsNarrower s w e = ground arith

window-IsNarrower :
    (upper : Text → Text) (state : Option Text) → IsNarrower (window_for_state upper state)
unfolding window_for_state IsNarrower
window-IsNarrower upper none = omega arith
window-IsNarrower upper (some []) = omega arith
window-IsNarrower upper (some (c ∷ s)) =
    elim (Option-cases (state_window_overrides (trim (upper (c ∷ s))))) [
      | inl e ↦ rw (e, window_for_state) (omega arith)
      | inr (w, e) ↦ rw (e, window_for_state) (overrides-IsNarrower (trim (upper (c ∷ s))) w e)
    ]

-- If sending is not blocked, then the hour in the zone is known and lies from 8 (inclusive) to 21
-- (exclusive), whatever the state.
pub is_within_quiet_hours-federal :
    (upper : Text → Text) (format : ℕ → String → Option ℕ) (now : ℕ) (zone : String)
    (state : Option Text)
    → is_within_quiet_hours upper format now zone state ≡ false
    → (hour : ℕ) × (local_hour_in_time_zone format now zone ≡ some hour) × (8 ≤ hour) × (hour < 21)
unfolding is_within_quiet_hours IsNarrower
is_within_quiet_hours-federal upper format now zone state e =
    elim (Option-cases (local_hour_in_time_zone format now zone)) [
      | inl unknown ↦ ground arith
      | inr (hour, known) ↦
          let open_hours : IsNarrower (window_for_state upper state) =
            window-IsNarrower upper state in
          (hour, known, ground (arith, open_hours), ground (arith, open_hours))
    ]
