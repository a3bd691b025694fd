-- ===== src/Limits/Bounds.antt =====
-- How many requests of one client a window lets through.
use signalstack_sms.Prelude.{
  ℕ, ◌+◌, ◌≤◌, ◌<◌, max, String, Bool, true, false, some, List, [], ◌∷◌, ◌≡◌, refl, sym, ◌∙◌, subst,
  arith, leb, ltb, str_eq, eq_iff, eq_refl, find_row, find_row-key, ◌&&◌, Option-cases, All,
  Bool-cases, inl, inr, if_case,
}
use signalstack_sms.Limits.Window.{
  ApiRateLimitPolicy, RateLimitEntry, RateLimitResult, prune_expired_entries, set_entry,
  current_entry, counted_entry, count_request, check_api_rate_limit,
}

-- A request of a client at a time.
pub record Request : Type 0 where
  pub key : String
  pub at_time : ℕ

abbrev one_if : Bool → ℕ
one_if true = 1
one_if false = 0

-- How many of the requests of one client are allowed, when all are checked in turn.
unfoldable pub allowed_count : String → ApiRateLimitPolicy → List Request → List RateLimitEntry → ℕ
allowed_count key policy [] store = 0
allowed_count key policy (r ∷ rest) store =
    let checked = check_api_rate_limit r.key policy r.at_time store in
    one_if (str_eq r.key key && checked.0.allowed) + allowed_count key policy rest checked.1

find_pruned :
    (key : String) (now : ℕ) (rows : List RateLimitEntry) (e : RateLimitEntry)
    → find_row RateLimitEntry.key key rows ≡ some e
    → now < e.reset_at
    → find_row RateLimitEntry.key key (prune_expired_entries now rows) ≡ some e
unfolding find_row prune_expired_entries
find_pruned key now [] e h live = ground arith
find_pruned key now (r ∷ rows) e h live = ground (arith, find_pruned key now rows e)

find_set :
    (e : RateLimitEntry) (rows : List RateLimitEntry)
    → find_row RateLimitEntry.key e.key (set_entry e rows) ≡ some e
unfolding find_row set_entry
find_set e [] = rw (eq_refl e.key) refl
find_set e (r ∷ rows) = ground (arith, eq_refl e.key, find_set e rows)

find_set-other :
    (key : String) (e : RateLimitEntry) (rows : List RateLimitEntry)
    → str_eq e.key key ≡ false
    → find_row RateLimitEntry.key key (set_entry e rows) ≡ find_row RateLimitEntry.key key rows
unfolding find_row set_entry
find_set-other key e [] h = ground arith
find_set-other key e (r ∷ rows) h =
    ground
      (arith, eq_iff r.key e.key, eq_iff r.key key, eq_iff e.key key, find_set-other key e rows)

current_entry-key :
    (key : String) (policy : ApiRateLimitPolicy) (now : ℕ) (rows : List RateLimitEntry)
    → (current_entry key policy now rows).key ≡ key
unfolding current_entry
current_entry-key key policy now rows = elim (Option-cases (find_row RateLimitEntry.key key rows)) [
  | inl gone ↦ rw gone refl
  | inr (e, there) ↦ rw there (
      if_case (λ x. x.key ≡ key) (ltb now e.reset_at) e _
        (λ _. find_row-key RateLimitEntry.key key rows e there) (λ _. refl))
]

module _ (key : String) (policy : ApiRateLimitPolicy) (on : policy.enabled ≡ true) where
  -- The bound on what is still let through, where the client has `n` requests counted.
  abbrev Bounds : ℕ → List Request → Bool → RateLimitResult × List RateLimitEntry → Type 0
  Bounds n rest same checked =
      one_if (same && checked.0.allowed) + allowed_count key policy rest checked.1 + n
      ≤ max n policy.limit

  -- What is left to show after a request, for the requests that follow it.
  abbrev Later : List Request → Type 0
  Later rest =
      (store : List RateLimitEntry) (e : RateLimitEntry)
      → find_row RateLimitEntry.key key store ≡ some e
      → All (λ r. r.at_time < e.reset_at) rest
      → allowed_count key policy rest store + e.count ≤ max e.count policy.limit

  own_request :
      (now : ℕ) (rows : List RateLimitEntry) (e : RateLimitEntry) (rest : List Request)
      → e.key ≡ key
      → All (λ r. r.at_time < e.reset_at) rest
      → Later rest
      → Bounds e.count rest true (count_request policy now rows e)
  unfolding count_request counted_entry
  own_request now rows e rest own live later =
      let found = λ (x : RateLimitEntry) (k : x.key ≡ key).
        subst (λ j. find_row RateLimitEntry.key j (set_entry x rows) ≡ some x) k
          (find_set x rows) in
      elim (Bool-cases (leb policy.limit e.count)) [
        | inl full ↦
            let bound = later (set_entry e rows) e (found e own) live in
            rw (full, Bounds, count_request) (omega (arith, bound))
        | inr room ↦
            let bound =
              later (set_entry (counted_entry e) rows) (counted_entry e)
                (found (counted_entry e) own) live in
            rw (room, Bounds, count_request) (ground (arith, bound))
      ]

  other_request :
      (now : ℕ) (rows : List RateLimitEntry) (e x : RateLimitEntry) (rest : List Request)
      → find_row RateLimitEntry.key key rows ≡ some e
      → str_eq x.key key ≡ false
      → All (λ r. r.at_time < e.reset_at) rest
      → Later rest
      → Bounds e.count rest false (count_request policy now rows x)
  unfolding count_request counted_entry
  other_request now rows e x rest there other live later =
      elim (Bool-cases (leb policy.limit x.count)) [
        | inl full ↦
            let bound = later (set_entry x rows) e (find_set-other key x rows other ∙ there) live in
            rw (full, Bounds, count_request) (omega (arith, bound))
        | inr room ↦
            let bound =
              later (set_entry (counted_entry x) rows) e
                (find_set-other key (counted_entry x) rows other ∙ there) live in
            rw (room, Bounds, count_request) (omega (arith, bound))
      ]

  current_entry-live :
      (now : ℕ) (rows : List RateLimitEntry) (e : RateLimitEntry)
      → find_row RateLimitEntry.key key rows ≡ some e
      → now < e.reset_at
      → current_entry key policy now rows ≡ e
  unfolding current_entry
  current_entry-live now rows e there live = rw there (ground arith)

  checked-request :
      (j : String) (now : ℕ) (store : List RateLimitEntry)
      → check_api_rate_limit j policy now store
        ≡ count_request policy now
            (prune_expired_entries now store)
            (current_entry j policy now (prune_expired_entries now store))
  unfolding check_api_rate_limit
  checked-request j now store = rw on refl

  -- Under a policy that is enabled, while a client's window lasts, the requests of that client that
  -- are let through, with those that are counted already, are at most the limit (or as many as are
  -- counted already): whatever the times and the order of the requests within the window, and
  -- whatever other clients send.
  pub allowed_count-IsBounded :
      (requests : List Request) (store : List RateLimitEntry) (e : RateLimitEntry)
      → find_row RateLimitEntry.key key store ≡ some e
      → All (λ r. r.at_time < e.reset_at) requests
      → allowed_count key policy requests store + e.count ≤ max e.count policy.limit
  unfolding allowed_count
  allowed_count-IsBounded [] store e h live = omega arith
  allowed_count-IsBounded (r ∷ rest) store e h (now, live) =
      let rows = prune_expired_entries r.at_time store in
      let there = find_pruned key r.at_time store e h now in
      let later : Later rest = allowed_count-IsBounded rest in
      let checked = λ (same : Bool).
        subst (Bounds e.count rest same) (sym (checked-request r.key r.at_time store)) in
      elim (Bool-cases (str_eq r.key key)) [
        | inl same ↦
            let own : r.key ≡ key = ground (arith, eq_iff r.key key) in
            let entry : current_entry r.key policy r.at_time rows ≡ e =
              rw own (current_entry-live r.at_time rows e there now) in
            subst (λ b. Bounds e.count rest b (check_api_rate_limit r.key policy r.at_time store))
              (sym same)
              (checked true (
                subst (λ x. Bounds e.count rest true (count_request policy r.at_time rows x))
                  (sym entry)
                  (own_request r.at_time rows e rest (find_row-key RateLimitEntry.key key store e h)
                    live later)))
        | inr other ↦
            let entry = current_entry r.key policy r.at_time rows in
            subst (λ b. Bounds e.count rest b (check_api_rate_limit r.key policy r.at_time store))
              (sym other)
              (checked false (
                other_request r.at_time rows e entry rest there
                  (rw (current_entry-key r.key policy r.at_time rows) other) live later))
      ]
