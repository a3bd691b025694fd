-- ===== src/Messaging/Frontier/Unique.antt =====
-- Two keys of `MessageAttempt`: its id, and the message with the attempt's number.
use signalstack_sms.Prelude.{
  ℕ, ◌+◌, ◌≤◌, String, Bool, true, false, ◌&&◌, ◌||◌, some, List, [], ◌∷◌, ◌++◌, ◌≡◌, refl, sym,
  subst, ◌∙◌, arith, inl, inr, Bool-cases, any, All, update_row, find_row, str_eq, eq_iff, ◌==◌,
  if◌then◌else◌,
}
use signalstack_sms.Messaging.Model.{Attempt, same_key, clashes}
use signalstack_sms.Messaging.Policy.{direct_message_max_attempts}
use signalstack_sms.Messaging.Frontier.Row.{Advances, IsWithinBudget}

-- No two rows share a key.
abbrev pub IsUnique : List Attempt → Type 0
IsUnique [] = Unit
IsUnique (a ∷ rows) = (any (same_key a) rows ≡ false) × IsUnique rows

str_eq_sym : (s t : String) → str_eq s t ≡ false → str_eq t s ≡ false
str_eq_sym s t h = ground (arith, eq_iff s t, eq_iff t s)

same_key_sym : (a b : Attempt) → same_key a b ≡ false → same_key b a ≡ false
unfolding same_key
same_key_sym a b h = ground (
  arith,
  str_eq_sym b.id a.id,
  str_eq_sym b.message_id a.message_id,
  str_eq_sym a.id b.id,
  str_eq_sym a.message_id b.message_id,
)

any-append :
    (a b : Attempt) (rows : List Attempt)
    → any (same_key a) rows ≡ false
    → same_key a b ≡ false
    → any (same_key a) (rows ++ b ∷ []) ≡ false
any-append a b [] h k = ground arith
any-append a b (c ∷ rows) h k = ground (arith, any-append a b rows)

clashes-same_key : (a b : Attempt) → clashes a b ≡ false → same_key a b ≡ false
unfolding clashes
clashes-same_key a b h = cases (same_key a b) _ _ h
  where
    cases : (x y z : Bool) → x || y || z ≡ false → x ≡ false
    cases false y z h = refl
    cases true y z h = cc

-- Where the keys of a new row are free, these two are.
pub any-clashes :
    (a : Attempt) (rows : List Attempt)
    → any (clashes a) rows ≡ false
    → any (same_key a) rows ≡ false
any-clashes a [] h = refl
any-clashes a (b ∷ rows) h = ground (arith, clashes-same_key a b, any-clashes a rows)

pub IsUnique-append :
    (a : Attempt) (rows : List Attempt)
    → IsUnique rows
    → any (same_key a) rows ≡ false
    → IsUnique (rows ++ a ∷ [])
IsUnique-append a [] u h = (refl, tt)
IsUnique-append a (b ∷ rows) (first, rest) h = (
  any-append b a rows first (same_key_sym a b (ground arith)),
  IsUnique-append a rows rest (ground arith),
)

same_key-right : (x a b : Attempt) → Advances a b → same_key x b ≡ same_key x a
unfolding same_key
same_key-right x a b h = rw (h.id, h.message_id, h.attempt_number)

same_key-left :
    (a b : Attempt) (rows : List Attempt)
    → Advances a b
    → any (same_key b) rows ≡ any (same_key a) rows
unfolding same_key
same_key-left a b [] h = refl
same_key-left a b (c ∷ rows) h = rw (h.id, h.message_id, h.attempt_number, same_key-left a b rows h)

module _ (id : String) (f : Attempt → Attempt) where
  any-update_row :
      (x : Attempt) (rows : List Attempt) (a : Attempt)
      → find_row Attempt.id id rows ≡ some a
      → Advances a (f a)
      → any (same_key x) (update_row Attempt.id id f rows) ≡ any (same_key x) rows
  unfolding find_row update_row
  any-update_row x [] a e h = refl
  any-update_row x (b ∷ rows) a e h = elim (Bool-cases (str_eq b.id id)) [
    | inl here ↦ let same : b ≡ a = ground arith in rw (here, same, same_key-right x a (f a) h)
    | inr later ↦ rw (later, any-update_row x rows a (ground arith) h)
  ]

  pub IsUnique-update_row :
      (rows : List Attempt) (a : Attempt)
      → find_row Attempt.id id rows ≡ some a
      → Advances a (f a)
      → IsUnique rows
      → IsUnique (update_row Attempt.id id f rows)
  unfolding find_row update_row
  IsUnique-update_row [] a e h u = tt
  IsUnique-update_row (b ∷ rows) a e h (first, rest) = elim (Bool-cases (str_eq b.id id)) [
    | inl here ↦
        let same : b ≡ a = ground arith in
        rw here
          (same_key-left b (f b) rows (subst (λ c. Advances c (f c)) (sym same) h) ∙ first, rest)
    | inr later ↦ rw later (
      any-update_row b rows a (ground arith) h ∙ first,
      IsUnique-update_row rows a (ground arith) h rest,
    )
  ]

-- The number of attempts of a message.
abbrev pub count_of : String → List Attempt → ℕ
count_of id [] = 0
count_of id (a ∷ rows) = (if str_eq a.message_id id then 1 else 0) + count_of id rows

-- Those with one number.
abbrev count_at : String → ℕ → List Attempt → ℕ
count_at id n [] = 0
count_at id n (a ∷ rows) =
    (if str_eq a.message_id id && a.attempt_number == n then 1 else 0) + count_at id n rows

count_at_none :
    (a : Attempt) (rows : List Attempt)
    → any (same_key a) rows ≡ false
    → count_at a.message_id a.attempt_number rows ≡ 0
unfolding same_key
count_at_none a [] h = refl
count_at_none a (b ∷ rows) h = ground (arith, count_at_none a rows)

count_at_le : (id : String) (n : ℕ) (rows : List Attempt) → IsUnique rows → count_at id n rows ≤ 1
count_at_le id n [] u = omega arith
count_at_le id n (a ∷ rows) (first, rest) =
    elim (Bool-cases (str_eq a.message_id id && a.attempt_number == n)) [
      | inl here ↦
          let same_id : a.message_id ≡ id = (eq_iff a.message_id id).0 (ground arith) in
          let same_number : a.attempt_number ≡ n = ground arith in
          let others : count_at id n rows ≡ 0 =
            subst (λ i. count_at i n rows ≡ 0) same_id
              (subst (λ k. count_at a.message_id k rows ≡ 0) same_number
                (count_at_none a rows first)) in
          rw (here, others) (omega arith)
      | inr other ↦ rw other (omega (arith, count_at_le id n rows rest))
    ]

count_of-split :
    (id : String) (rows : List Attempt)
    → All IsWithinBudget rows
    → count_of id rows ≡ count_at id 1 rows + count_at id 2 rows + count_at id 3 rows
count_of-split id [] h = refl
count_of-split id (a ∷ rows) ((lo, hi), h) = ground (arith, count_of-split id rows h)

pub count_of_le :
    (id : String) (rows : List Attempt)
    → IsUnique rows
    → All IsWithinBudget rows
    → count_of id rows ≤ direct_message_max_attempts
count_of_le id rows u h = omega (
  arith,
  count_of-split id rows h,
  count_at_le id 1 rows u,
  count_at_le id 2 rows u,
  count_at_le id 3 rows u,
)
