-- ===== src/Access/Admission.antt =====
-- Who is let through, and under which name.
use my_ai_router.Common.{
  ℕ, ◌≡◌, ◌⊎◌, refl, sym, subst, eq_iff, true, false, none, some, String, is_empty, Bool-cases, inl,
  inr, Message, ap, ◌∙◌,
}
use my_ai_router.Config.{Settings}
use my_ai_router.Access.{
  ApiKey, Credentials, Verdict, admit, refuse, verdict, with_bearer, check_scope, bearer,
  key_record, model_allowed, daily_limit_exceeded, check_budget, find_key,
}

with_bearer_valid :
    (cr : Credentials) (now : ℕ) (model key : String) (k : ApiKey)
    → cr.validates key ≡ true
    → find_key key cr.keys ≡ some k
    → k.is_active ≡ true
    → with_bearer cr now model (some key) ≡ check_scope cr key model (key_record cr key)
unfolding with_bearer
with_bearer_valid cr now model key k answered held active = rw (answered, held, active) refl

pub verdict_login :
    (s : Settings) (cr : Credentials) (now : ℕ) (model : String)
    → s.require_login ≡ true
    → verdict (some s) cr now model ≡ with_bearer cr now model (bearer cr)
unfolding verdict
verdict_login s cr now model login = rw login refl

pub key_verdict :
    (s : Settings) (cr : Credentials) (now : ℕ) (model key : String) (k : ApiKey)
    → s.require_login ≡ true
    → bearer cr ≡ some key
    → cr.validates key ≡ true
    → find_key key cr.keys ≡ some k
    → k.is_active ≡ true
    → verdict (some s) cr now model ≡ check_scope cr key model (key_record cr key)
key_verdict s cr now model key k login b answered held active =
    verdict_login s cr now model login
    ∙ ap (with_bearer cr now model) b
    ∙ with_bearer_valid cr now model key k answered held active

abbrev pub admitted_by_key : String → Verdict
admitted_by_key key = admit key "API Key authenticated successfully"

-- The three outcomes for a valid key, with what each of them tells of the key's scope.
abbrev pub Scoped : Credentials → String → String → ApiKey → Verdict → Type 0
Scoped cr key model k v =
    ((v ≡ admitted_by_key key)
      × ((model ≡ "") ⊎ (model_allowed k model ≡ true))
      × (daily_limit_exceeded cr k ≡ false))
    ⊎ ((m : Message) × (d : Message) × (v ≡ refuse 403 m d) × (model_allowed k model ≡ false))
    ⊎ ((m : Message) × (d : Message) × (v ≡ refuse 429 m d) × (daily_limit_exceeded cr k ≡ true))

check_budget-Scoped :
    (cr : Credentials) (key model : String) (k : ApiKey)
    → (model ≡ "") ⊎ (model_allowed k model ≡ true)
    → Scoped cr key model k (check_budget cr key k)
unfolding check_budget
check_budget-Scoped cr key model k h = elim (Bool-cases (daily_limit_exceeded cr k)) [
  | inl spent ↦ rw spent (inr (inr (_, _, refl, refl)))
  | inr left ↦ rw left (inl (refl, h, refl))
]

check_scope_listed :
    (cr : Credentials) (key model : String) (k : ApiKey)
    → model_allowed k model ≡ true
    → check_scope cr key model (some k) ≡ check_budget cr key k
unfolding check_scope
check_scope_listed cr key model k listed = elim (Bool-cases (is_empty model)) [
  | inl e ↦ rw (listed, e) refl
  | inr e ↦ rw (listed, e) refl
]

pub check_scope-Scoped :
    (cr : Credentials) (key model : String) (k : ApiKey)
    → Scoped cr key model k (check_scope cr key model (some k))
unfolding check_scope
check_scope-Scoped cr key model k = elim (Bool-cases (is_empty model)) [
  | inl none_named ↦
      rw none_named (check_budget-Scoped cr key model k (inl ((eq_iff model "").0 none_named)))
  | inr named ↦ elim (Bool-cases (model_allowed k model)) [
    | inl listed ↦
        subst (Scoped cr key model k) (sym (check_scope_listed cr key model k listed))
          (check_budget-Scoped cr key model k (inr listed))
    | inr unlisted ↦ rw (named, unlisted) (inr (inl (_, _, refl, refl)))
  ]
]

key_record-found :
    (cr : Credentials) (key : String)
    → cr.finds key ≡ true
    → key_record cr key ≡ find_key key cr.keys
unfolding key_record
key_record-found cr key answered = rw answered refl

key_record-unanswered :
    (cr : Credentials) (key : String) → cr.finds key ≡ false → key_record cr key ≡ none
unfolding key_record
key_record-unanswered cr key failed = rw failed refl

-- The query of the record decides whether the scope is checked at all.
abbrev pub ScopedIfFound : Credentials → String → String → ApiKey → Verdict → Type 0
ScopedIfFound cr key model k v =
    ((cr.finds key ≡ true) × Scoped cr key model k v)
    ⊎ ((cr.finds key ≡ false) × (v ≡ admitted_by_key key))

pub found-Scoped :
    (cr : Credentials) (key model : String) (k : ApiKey)
    → cr.finds key ≡ true
    → find_key key cr.keys ≡ some k
    → Scoped cr key model k (check_scope cr key model (key_record cr key))
found-Scoped cr key model k answered held =
    subst (λ r. Scoped cr key model k (check_scope cr key model r))
      (sym (key_record-found cr key answered ∙ held)) (check_scope-Scoped cr key model k)

check_scope-ScopedIfFound :
    (cr : Credentials) (key model : String) (k : ApiKey)
    → find_key key cr.keys ≡ some k
    → ScopedIfFound cr key model k (check_scope cr key model (key_record cr key))
unfolding check_scope
check_scope-ScopedIfFound cr key model k held = elim (Bool-cases (cr.finds key)) [
  | inl answered ↦ inl (answered, found-Scoped cr key model k answered held)
  | inr failed ↦ inr (failed, ap (check_scope cr key model) (key_record-unanswered cr key failed))
]

-- Where login is required, a request carries the key of an active record and the query of the key's
-- flag is answered: if the query of its record is answered too, the request is admitted under that key
-- only for a model that the key's allowlist contains (or with no model named) and with the key's daily
-- limit not reached; otherwise the answer is 403, and then the model is outside the list, or 429, and
-- then the limit is reached. If the query of the record fails, the request is admitted for any model.
pub scope_is_enforced :
    (s : Settings) (cr : Credentials) (now : ℕ) (model key : String) (k : ApiKey)
    → s.require_login ≡ true
    → bearer cr ≡ some key
    → cr.validates key ≡ true
    → find_key key cr.keys ≡ some k
    → k.is_active ≡ true
    → ScopedIfFound cr key model k (verdict (some s) cr now model)
scope_is_enforced s cr now model key k login b answered held active =
    subst (ScopedIfFound cr key model k)
      (sym (key_verdict s cr now model key k login b answered held active))
      (check_scope-ScopedIfFound cr key model k held)
