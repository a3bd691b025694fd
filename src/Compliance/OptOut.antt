-- ===== src/Compliance/OptOut.antt =====
-- lib/compliance/opt-out.ts: the keyword of an inbound message. `[^a-zA-Z]` is stripped before the
-- text is raised to capitals, so that only ASCII letters are.
use mathlib.Core.List.{reverse, reverse_aux}
use signalstack_sms.Prelude.{
  ℕ, Bool, true, false, ◌&&◌, ◌||◌, List, [], ◌∷◌, map, ◌==◌, if◌then◌else◌, codes, ◌≡◌, refl, ap,
  ◌∙◌, arith, any, Bool-cases, inl, inr,
}
use signalstack_sms.Text.{Text, is_space, is_upper, is_lower, to_upper, trim, trim_start}

pub data InboundKeywordAction : Type 0 where
  opt_out opt_in help no_action : InboundKeywordAction

opt_out_keywords : List Text
opt_out_keywords =
    codes "STOP"
    ∷ codes "STOPALL"
    ∷ codes "UNSUBSCRIBE"
    ∷ codes "CANCEL"
    ∷ codes "END"
    ∷ codes "QUIT"
    ∷ codes "REVOKE"
    ∷ codes "OPTOUT"
    ∷ []

opt_in_keywords : List Text
opt_in_keywords =
    codes "YES" ∷ codes "JOIN" ∷ codes "CONFIRM" ∷ codes "Y" ∷ codes "START" ∷ codes "UNSTOP" ∷ []

help_keywords : List Text
help_keywords = codes "HELP" ∷ codes "INFO" ∷ []

text_eq : Text → Text → Bool
text_eq [] [] = true
text_eq (a ∷ s) (b ∷ t) = a == b && text_eq s t
text_eq _ _ = false

-- `split(/\s+/)[0]`
first_word : Text → Text
first_word [] = []
first_word (c ∷ s) = if is_space c then [] else c ∷ first_word s

letters : Text → Text
letters [] = []
letters (c ∷ s) = if is_upper c || is_lower c then c ∷ letters s else letters s

keyword_of : Text → Text
keyword_of body = map to_upper (letters (first_word (trim body)))

action_of : Text → InboundKeywordAction
action_of [] = no_action
action_of (c ∷ s) =
    if any (text_eq (c ∷ s)) opt_out_keywords
    then opt_out
    else if any (text_eq (c ∷ s)) opt_in_keywords
    then opt_in
    else if any (text_eq (c ∷ s)) help_keywords
    then help
    else no_action

pub classify_inbound_keyword : Text → InboundKeywordAction
classify_inbound_keyword body = action_of (keyword_of body)

is_space-to_upper : (c : ℕ) → is_space (to_upper c) ≡ is_space c
unfolding is_space to_upper
is_space-to_upper c = ground arith

to_upper_idempotent : (c : ℕ) → to_upper (to_upper c) ≡ to_upper c
unfolding to_upper
to_upper_idempotent c = ground arith

is_letter-to_upper :
    (c : ℕ) → (is_upper (to_upper c) || is_lower (to_upper c)) ≡ (is_upper c || is_lower c)
unfolding is_upper to_upper
is_letter-to_upper c = ground arith

trim_start-map : (s : Text) → trim_start (map to_upper s) ≡ map to_upper (trim_start s)
unfolding trim_start
trim_start-map [] = refl
trim_start-map (c ∷ s) = elim (Bool-cases (is_space c)) [
  | inl e ↦ rw (is_space-to_upper c, e) (trim_start-map s)
  | inr e ↦ rw (is_space-to_upper c, e)
]

reverse_aux-map :
    (s t : Text) → reverse_aux (map to_upper s) (map to_upper t) ≡ map to_upper (reverse_aux s t)
reverse_aux-map [] t = refl
reverse_aux-map (c ∷ s) t = reverse_aux-map s (c ∷ t)

reverse-map : (s : Text) → reverse (map to_upper s) ≡ map to_upper (reverse s)
reverse-map s = reverse_aux-map s []

trim-map : (s : Text) → trim (map to_upper s) ≡ map to_upper (trim s)
unfolding trim
trim-map s =
    ap (λ t. reverse (trim_start (reverse t))) (trim_start-map s)
    ∙ ap (λ t. reverse (trim_start t)) (reverse-map (trim_start s))
    ∙ ap reverse (trim_start-map (reverse (trim_start s)))
    ∙ reverse-map (trim_start (reverse (trim_start s)))

first_word-map : (s : Text) → first_word (map to_upper s) ≡ map to_upper (first_word s)
unfolding first_word
first_word-map [] = refl
first_word-map (c ∷ s) = elim (Bool-cases (is_space c)) [
  | inl e ↦ rw (is_space-to_upper c, e)
  | inr e ↦ rw (is_space-to_upper c, e) (ap (λ t. to_upper c ∷ t) (first_word-map s))
]

letters-map : (s : Text) → letters (map to_upper s) ≡ map to_upper (letters s)
unfolding letters
letters-map [] = refl
letters-map (c ∷ s) = elim (Bool-cases (is_upper c || is_lower c)) [
  | inl e ↦ rw (is_letter-to_upper c, e) (ap (λ t. to_upper c ∷ t) (letters-map s))
  | inr e ↦ rw (is_letter-to_upper c, e) (letters-map s)
]

map-to_upper_idempotent : (s : Text) → map to_upper (map to_upper s) ≡ map to_upper s
map-to_upper_idempotent [] = refl
map-to_upper_idempotent (c ∷ s) = cc (to_upper_idempotent c, map-to_upper_idempotent s)

keyword_of-map : (body : Text) → keyword_of (map to_upper body) ≡ keyword_of body
unfolding keyword_of
keyword_of-map body =
    ap (λ t. map to_upper (letters (first_word t))) (trim-map body)
    ∙ ap (λ t. map to_upper (letters t)) (first_word-map (trim body))
    ∙ ap (map to_upper) (letters-map (first_word (trim body)))
    ∙ map-to_upper_idempotent (letters (first_word (trim body)))

-- Capitals or not, a message has the same meaning: raising the ASCII letters of the body changes nothing.
pub classify_inbound_keyword-to_upper :
    (body : Text) → classify_inbound_keyword (map to_upper body) ≡ classify_inbound_keyword body
unfolding classify_inbound_keyword
classify_inbound_keyword-to_upper body = ap action_of (keyword_of-map body)

stop_please : classify_inbound_keyword (codes "  Stop!! please") ≡ opt_out
unfolding classify_inbound_keyword keyword_of action_of trim trim_start first_word letters is_upper
    is_lower is_space to_upper opt_out_keywords text_eq
stop_please = refl
