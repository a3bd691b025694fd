-- ===== src/Limits/Window.antt =====
-- `checkApiRateLimit` without Redis. The map is an association list of entries in the order of their
-- insertion; an entry carries its key.
use signalstack_sms.Prelude.{
  ℕ, ◌+◌, ◌-◌, ◌/◌, max, String, Bool, true, false, Option, none, some, List, [], ◌∷◌, leb, ltb,
  str_eq, if◌then◌else◌, find_row,
}

pub record ApiRateLimitPolicy : Type 0 where
  pub enabled : Bool
  pub limit : ℕ
  pub window_ms : ℕ

pub record RateLimitEntry : Type 0 where
  pub key : String
  pub count : ℕ
  pub reset_at : ℕ

pub record RateLimitResult : Type 0 where
  pub allowed : Bool
  pub limit : ℕ
  pub remaining : ℕ
  pub reset_at : ℕ
  pub retry_after_seconds : ℕ

-- `Math.max(Math.ceil((resetAt - now) / 1000), 1)`
unfoldable pub retry_after_seconds : ℕ → ℕ → ℕ
retry_after_seconds reset_at now = max ((reset_at - now + 999) / 1000) 1

unfoldable pub prune_expired_entries : ℕ → List RateLimitEntry → List RateLimitEntry
prune_expired_entries now [] = []
prune_expired_entries now (e ∷ rows) =
    let rest = prune_expired_entries now rows in if leb e.reset_at now then rest else e ∷ rest

-- `store.set`
unfoldable pub set_entry : RateLimitEntry → List RateLimitEntry → List RateLimitEntry
set_entry e [] = e ∷ []
set_entry e (r ∷ rows) = if str_eq r.key e.key then e ∷ rows else r ∷ set_entry e rows

abbrev pub live_entry : String → ApiRateLimitPolicy → ℕ → Option RateLimitEntry → RateLimitEntry
live_entry key policy now none = record { key = key; count = 0; reset_at = now + policy.window_ms }
live_entry key policy now (some e) =
    if ltb now e.reset_at
    then e
    else record { key = key; count = 0; reset_at = now + policy.window_ms }

-- The entry that the request counts in.
unfoldable pub current_entry :
    String → ApiRateLimitPolicy → ℕ → List RateLimitEntry → RateLimitEntry
current_entry key policy now store =
    live_entry key policy now (find_row RateLimitEntry.key key store)

unfoldable pub counted_entry : RateLimitEntry → RateLimitEntry
counted_entry e = record e { count = e.count + 1 }

unfoldable pub count_request :
    ApiRateLimitPolicy
    → ℕ
    → List RateLimitEntry
    → RateLimitEntry
    → RateLimitResult × List RateLimitEntry
count_request policy now store e =
    if leb policy.limit e.count
    then (
      record {
        allowed = false;
        limit = policy.limit;
        remaining = 0;
        reset_at = e.reset_at;
        retry_after_seconds = retry_after_seconds e.reset_at now;
      },
      set_entry e store,
    )
    else (
      record {
        allowed = true;
        limit = policy.limit;
        remaining = max (policy.limit - (e.count + 1)) 0;
        reset_at = e.reset_at;
        retry_after_seconds = 0;
      },
      set_entry (counted_entry e) store,
    )

unfoldable pub check_api_rate_limit :
    String → ApiRateLimitPolicy → ℕ → List RateLimitEntry → RateLimitResult × List RateLimitEntry
check_api_rate_limit key policy now store =
    if policy.enabled
    then (let pruned = prune_expired_entries now store in
        count_request policy now pruned (current_entry key policy now pruned))
    else (
      record {
        allowed = true;
        limit = policy.limit;
        remaining = policy.limit;
        reset_at = now + policy.window_ms;
        retry_after_seconds = 0;
      },
      store,
    )
