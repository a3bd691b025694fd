-- ===== src/Limits/Tests.antt =====
-- A client whose window has one request counted, and three more requests.
use signalstack_sms.Prelude.{◌+◌, ◌≤◌, max, true, some, List, [], ◌∷◌, ◌≡◌, refl, find_row, arith}
use signalstack_sms.Limits.Window.{ApiRateLimitPolicy, RateLimitEntry}
use signalstack_sms.Limits.Bounds.{Request, allowed_count, allowed_count-IsBounded}

abbrev policy : ApiRateLimitPolicy
policy = record { enabled = true; limit = 2; window_ms = 60000 }

abbrev entry : RateLimitEntry
entry = record { key = "a"; count = 1; reset_at = 60000 }

abbrev requests : List Request
requests =
    record { key = "a"; at_time = 100 }
    ∷ record { key = "b"; at_time = 150 }
    ∷ record { key = "a"; at_time = 200 }
    ∷ []

entry-found : find_row RateLimitEntry.key "a" (entry ∷ []) ≡ some entry
unfolding find_row
entry-found = refl

allowed_count-IsBounded_example : allowed_count "a" policy requests (entry ∷ []) + 1 ≤ max 1 2
allowed_count-IsBounded_example =
    allowed_count-IsBounded "a" policy refl requests (entry ∷ []) entry entry-found
      (omega arith, (omega arith, (omega arith, tt)))
