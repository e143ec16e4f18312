-- ===== src/Access/Anonymous.antt =====
-- What a request without credentials is admitted as.
use my_ai_router.Common.{
  ℕ, ◌≡◌, ◌⊎◌, refl, sym, ap, ◌∙◌, subst, inl, inr, true, false, ◌&&◌, not, Bool, Bool-cases,
  Option, none, some, List, [], ◌∷◌, ◌++◌, All, String, is_empty, Message,
}
use my_ai_router.Config.{Settings}
use my_ai_router.Access.{
  ApiKey, Credentials, Verdict, admit, refuse, verdict, with_bearer, without_key, any_active_key,
  admit_first, first_active, valid_cookie, bearer,
}
use my_ai_router.Access.Admission.{verdict_login}

abbrev pub is_system_key : ApiKey → Bool
is_system_key k = k.is_active && not (is_empty k.key)

-- The first key of the table that is active and not empty, where there is one.
abbrev pub FirstSystemKey : List ApiKey → Option ApiKey → Type 0
FirstSystemKey keys none = All (λ k. is_system_key k ≡ false) keys
FirstSystemKey keys (some k) =
    (before : List ApiKey) × (after : List ApiKey) × (keys ≡ before ++ k ∷ after)
    × (is_system_key k ≡ true)
    × All (λ x. is_system_key x ≡ false) before

FirstSystemKey-cons :
    (k : ApiKey) (rest : List ApiKey) (o : Option ApiKey)
    → is_system_key k ≡ false
    → FirstSystemKey rest o
    → FirstSystemKey (k ∷ rest) o
FirstSystemKey-cons k rest none miss h = (miss, h)
FirstSystemKey-cons k rest (some found) miss (before, after, e, hit, none_before) =
    (k ∷ before, after, ap (λ l. k ∷ l) e, hit, (miss, none_before))

first_active_skips :
    (k : ApiKey) (rest : List ApiKey)
    → is_system_key k ≡ false
    → first_active (k ∷ rest) ≡ first_active rest
unfolding first_active
first_active_skips k rest miss = rw miss refl

first_active-FirstSystemKey : (keys : List ApiKey) → FirstSystemKey keys (first_active keys)
unfolding first_active
first_active-FirstSystemKey [] = tt
first_active-FirstSystemKey (k ∷ rest) = elim (Bool-cases (is_system_key k)) [
  | inl hit ↦ rw hit ([], rest, refl, hit, tt)
  | inr miss ↦
      subst (FirstSystemKey (k ∷ rest)) (sym (first_active_skips k rest miss))
        (FirstSystemKey-cons k rest (first_active rest) miss (first_active-FirstSystemKey rest))
]

abbrev pub admitted_as_system : ApiKey → Verdict
admitted_as_system k = admit k.key "Authenticated via System Active API Key"

-- The verdict for the search's result, without and with a key.
abbrev pub Anonymous : List ApiKey → Verdict → Type 0
Anonymous keys v =
    (FirstSystemKey keys none
      × ((message : Message) × (details : Message) × (v ≡ refuse 401 message details)))
    ⊎ ((k : ApiKey) × FirstSystemKey keys (some k) × (v ≡ admitted_as_system k))

admit_first-Anonymous :
    (keys : List ApiKey) (found : Option ApiKey)
    → FirstSystemKey keys found
    → Anonymous keys (admit_first found)
unfolding admit_first
admit_first-Anonymous keys none first = inl (first, (_, _, refl))
admit_first-Anonymous keys (some k) first = inr (k, first, refl)

any_active_key-Anonymous : (keys : List ApiKey) → Anonymous keys (any_active_key (some keys))
unfolding any_active_key
any_active_key-Anonymous keys =
    admit_first-Anonymous keys (first_active keys) (first_active-FirstSystemKey keys)

without_key_keys :
    (cr : Credentials) (now : ℕ)
    → valid_cookie cr now cr.cookie ≡ false
    → cr.lists ≡ true
    → without_key cr now ≡ any_active_key (some cr.keys)
unfolding without_key
without_key_keys cr now no_session answered = rw (no_session, answered) refl

-- Where login is required and the listing of the keys is answered, a request without a bearer token and without a valid session is admitted
-- under the first key of the table that is active and not empty, whatever that key's scope is, and
-- answered with 401 only where no key is.
pub open_door :
    (s : Settings) (cr : Credentials) (now : ℕ) (model : String)
    → s.require_login ≡ true
    → bearer cr ≡ none
    → valid_cookie cr now cr.cookie ≡ false
    → cr.lists ≡ true
    → Anonymous cr.keys (verdict (some s) cr now model)
unfolding with_bearer
open_door s cr now model login no_bearer no_session answered =
    subst (Anonymous cr.keys)
      (sym (
        verdict_login s cr now model login
        ∙ ap (with_bearer cr now model) no_bearer
        ∙ without_key_keys cr now no_session answered))
      (any_active_key-Anonymous cr.keys)
