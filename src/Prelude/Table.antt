-- ===== src/Prelude/Table.antt =====
-- A database table: a list of rows with a primary key. A row is the first one with its key, so that
-- a read, a conditional update and a unique update by key all see one row.
use Prim.Native.String.{String}
use mathlib.Core.Path.{◌≡◌, refl, sym, subst, ◌∙◌}
use mathlib.Core.Logic.{inl, inr}
use mathlib.Core.Bool.{Bool, true}
use mathlib.Core.Option.{Option, none, some}
use mathlib.Core.List.{List, [], ◌∷◌, ◌++◌}
use native.Mathlib.Omega.{arith}
use text.Mathlib.Text.{◌==◌ as str_eq}
use text.Mathlib.TextEquality.{eq_iff}
use text.Mathlib.TextPositions.{eq_refl}
use signalstack_sms.Prelude.Tests.{if◌then◌else◌, Bool-cases}
use signalstack_sms.Prelude.Lists.{Evolves, Evolves-refl, any}

-- `row !== null && test(row)`, as a filter on a row that was read.
abbrev pub keep_if {ℓ} : {A : Type ℓ} → (A → Bool) → Option A → Option A
keep_if p none = none
keep_if p (some a) = if p a then some a else none

pub keep_if-some {ℓ} :
    {A : Type ℓ} (p : A → Bool) (o : Option A) (a : A)
    → keep_if p o ≡ some a
    → (o ≡ some a) × (p a ≡ true)
keep_if-some p none a e = ground arith
keep_if-some p (some b) a e = ground arith

module _ {ℓ} {A : Type ℓ} where
  -- `findFirst` on a condition that is not the key.
  unfoldable pub find : (A → Bool) → List A → Option A
  find p [] = none
  find p (a ∷ rows) = if p a then some a else find p rows

  pub find_sound : (p : A → Bool) (rows : List A) (a : A) → find p rows ≡ some a → p a ≡ true
  unfolding find
  find_sound p [] a e = ground arith
  find_sound p (b ∷ rows) a e = ground (arith, find_sound p rows a)

module _ {ℓ} {A : Type ℓ} (key : A → String) where
  unfoldable pub find_row : String → List A → Option A
  find_row k [] = none
  find_row k (a ∷ rows) = if str_eq (key a) k then some a else find_row k rows

  unfoldable pub update_row : String → (A → A) → List A → List A
  update_row k f [] = []
  update_row k f (a ∷ rows) = if str_eq (key a) k then f a ∷ rows else a ∷ update_row k f rows

  pub find_row-key : (k : String) (rows : List A) (a : A) → find_row k rows ≡ some a → key a ≡ k
  unfolding find_row
  find_row-key k [] a e = ground arith
  find_row-key k (b ∷ rows) a e = ground (arith, eq_iff (key b) k, find_row-key k rows a)

  -- A row that an update leaves under its key is read back as the update wrote it.
  pub find_row-update_row :
      (j k : String) (f : A → A) (rows : List A) (a : A)
      → find_row k rows ≡ some a
      → key (f a) ≡ k
      → find_row j (update_row k f rows) ≡ (if str_eq k j then some (f a) else find_row j rows)
  unfolding find_row update_row
  find_row-update_row j k f [] a e h = ground arith
  find_row-update_row j k f (b ∷ rows) a e h = ground (
    arith,
    eq_iff (key b) k,
    eq_iff (key b) j,
    eq_iff k j,
    eq_iff (key (f b)) j,
    find_row-update_row j k f rows a,
  )

  pub find_row-updated :
      (k : String) (f : A → A) (rows : List A) (a : A)
      → find_row k rows ≡ some a
      → key (f a) ≡ key a
      → find_row k (update_row k f rows) ≡ some (f a)
  find_row-updated k f rows a e h =
      subst (λ b. find_row k (update_row k f rows) ≡ (if b then some (f a) else find_row k rows))
        (eq_refl k) (find_row-update_row k k f rows a e (h ∙ find_row-key k rows a e))

  pub find_row-append :
      (k : String) (rows more : List A) (a : A)
      → find_row k rows ≡ some a
      → find_row k (rows ++ more) ≡ some a
  unfolding find_row
  find_row-append k [] more a e = ground arith
  find_row-append k (b ∷ rows) more a e = ground (arith, find_row-append k rows more a)

  -- A test that an update does not change on any row finds as much after it.
  pub any-update_row :
      (k : String) (f : A → A) (p : A → Bool)
      → ((a : A) → p (f a) ≡ p a)
      → (rows : List A) → any p (update_row k f rows) ≡ any p rows
  unfolding update_row
  any-update_row k f p same [] = refl
  any-update_row k f p same (b ∷ rows) = elim (Bool-cases (str_eq (key b) k)) [
    | inl here ↦ rw (here, same b)
    | inr later ↦ rw (later, any-update_row k f p same rows)
  ]

  pub update_row-none :
      (k : String) (f : A → A) (rows : List A) → find_row k rows ≡ none → update_row k f rows ≡ rows
  unfolding find_row update_row
  update_row-none k f [] e = refl
  update_row-none k f (b ∷ rows) e = ground (arith, update_row-none k f rows)

  module _ (R : A → A → Type 0) (Q : A → Type 0) where
    -- An update by key is a step of the table if it is one of the row.
    pub Evolves-update_row :
        ((a : A) → R a a)
        → (k : String) (f : A → A) (rows : List A) (a : A) → find_row k rows ≡ some a
        → R a (f a)
        → Evolves R Q rows (update_row k f rows)
    unfolding find_row update_row
    Evolves-update_row r k f [] a e h = tt
    Evolves-update_row r k f (b ∷ rows) a e h = elim (Bool-cases (str_eq (key b) k)) [
      | inl here ↦
          let same : b ≡ a = ground arith in
          rw here (subst (λ c. R c (f c)) (sym same) h, Evolves-refl R Q r rows)
      | inr later ↦ rw later (r b, Evolves-update_row r k f rows a (ground arith) h)
    ]

    -- A row that stands in a table stands, related, in each table that evolves from it.
    pub Evolves-find_row :
        ((a b : A) → R a b → key a ≡ key b)
        → (k : String) (rows rows' : List A) (a : A) → Evolves R Q rows rows'
        → find_row k rows ≡ some a
        → (b : A) × (find_row k rows' ≡ some b) × R a b
    unfolding find_row
    Evolves-find_row same k [] rows' a h e = absurd (cc)
    Evolves-find_row same k (b ∷ rows) [] a h e = absurd h
    Evolves-find_row same k (b ∷ rows) (c ∷ rows') a (h, hs) e =
        elim (Bool-cases (str_eq (key b) k)) [
          | inl here ↦
              let eq : b ≡ a = ground arith in
              (c, rw (← same b c h, here) refl, subst (λ d. R d c) eq h)
          | inr later ↦
              let (d, found, r) = Evolves-find_row same k rows rows' a hs (ground arith) in
              (d, rw (← same b c h, later) found, r)
        ]
