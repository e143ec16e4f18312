-- ===== src/Routing/Distinct.antt =====
-- The candidate targets of a route, as one list.
use my_ai_router.Common.{
  ◌≡◌, refl, Bool, true, false, ◌&&◌, ◌||◌, Option, none, some, List, [], ◌∷◌, ◌++◌, String, str_eq,
  eq_iff, any, All, All-append, arith, Bool-cases, inl, inr,
}
use my_ai_router.Context.{Connection, Target}
use my_ai_router.Config.{Snapshot, RoutingConfig, active_connections, model_config}
use my_ai_router.Config.Lookup.{active_connections-All}
use my_ai_router.Routing.Targets.{
  Collected, target_key, collect, collect_all, collect_fallback, collect_primary, collect_model,
  collect_models, candidate_targets, connections_for, connections_by_prefix, fallback_of,
  nothing_collected, model_prefix, or_prefix,
}

abbrev has_key : String → List Target → Bool
has_key k = any (λ t. str_eq (target_key t) k)

-- No two targets of the list have the same connection, provider and model.
abbrev pub Distinct : List Target → Type 0
Distinct [] = Unit {0}
Distinct (t ∷ rest) = (has_key (target_key t) rest ≡ false) × Distinct rest

abbrev IsActive : Target → Type 0
IsActive t = t.connection.is_active ≡ true

has_key-append :
    (k : String) (xs ys : List Target) → has_key k (xs ++ ys) ≡ (has_key k xs || has_key k ys)
has_key-append k [] ys = refl
has_key-append k (x ∷ xs) ys = ground (arith, has_key-append k xs ys)

Distinct-snoc :
    (xs : List Target) (t : Target)
    → Distinct xs
    → has_key (target_key t) xs ≡ false
    → Distinct (xs ++ t ∷ [])
Distinct-snoc [] t h e = (refl, tt)
Distinct-snoc (x ∷ xs) t h e = ground (
  arith,
  Distinct-snoc xs t h.1,
  has_key-append (target_key x) xs (t ∷ []),
  eq_iff (target_key t) (target_key x),
  eq_iff (target_key x) (target_key t),
)

-- The keys that are remembered are those of the targets.
abbrev Remembers : Collected → Type 0
Remembers s = (k : String) → any (λ j. str_eq j k) s.seen ≡ has_key k s.targets

record IsCollected (s : Collected) : Type 0 where
  distinct : Distinct s.targets
  active : All IsActive s.targets
  remembers : Remembers s

collect-IsCollected :
    (t : Target) (s : Collected) → IsActive t → IsCollected s → IsCollected (collect t s)
unfolding collect
collect-IsCollected t s a h = elim (Bool-cases (any (λ k. str_eq k (target_key t)) s.seen)) [
  | inl old ↦ rw old h
  | inr new ↦ rw new (record {
    distinct = Distinct-snoc s.targets t h.distinct (ground (arith, h.remembers (target_key t)));
    active = All-append IsActive s.targets (t ∷ []) h.active (a, tt);
    remembers = λ k. ground (arith, h.remembers k, has_key-append k s.targets (t ∷ []));
  })
]

collect_all-IsCollected :
    (provider name : String) (cs : List Connection) (s : Collected)
    → All (λ c. c.is_active ≡ true) cs
    → IsCollected s
    → IsCollected (collect_all provider name cs s)
unfolding collect_all
collect_all-IsCollected provider name [] s a h = h
collect_all-IsCollected provider name (c ∷ rest) s a h =
    collect_all-IsCollected provider name rest _ a.1 (collect-IsCollected _ s a.0 h)

abbrev AreActive : List Connection → Type 0
AreActive = All (λ c. c.is_active ≡ true)

offered-AreActive :
    (provider : String) (cs : List Connection)
    → All (λ c. (c.is_active && str_eq c.provider provider) ≡ true) cs
    → AreActive cs
offered-AreActive provider [] h = tt
offered-AreActive provider (c ∷ cs) h = (ground arith, offered-AreActive provider cs h.1)

active_connections-AreActive :
    (s : Snapshot) (provider : String) → AreActive (active_connections s provider)
active_connections-AreActive s provider =
    offered-AreActive provider (active_connections s provider) (active_connections-All s provider)

connections_by_prefix-AreActive :
    (s : Snapshot) (prefix : String) (cs : List Connection)
    → AreActive (connections_by_prefix s prefix cs)
unfolding connections_by_prefix
connections_by_prefix-AreActive s prefix [] = tt
connections_by_prefix-AreActive s prefix (c ∷ rest) =
    elim (Bool-cases (c.is_active && str_eq (model_prefix c) prefix)) [
      | inl hit ↦ rw hit (active_connections-AreActive s c.provider)
      | inr miss ↦ rw miss (connections_by_prefix-AreActive s prefix rest)
    ]

or_prefix-AreActive :
    (s : Snapshot) (prefix : String) (cs : List Connection)
    → AreActive cs
    → AreActive (or_prefix s prefix cs)
or_prefix-AreActive s prefix [] h = connections_by_prefix-AreActive s prefix s.connections
or_prefix-AreActive s prefix (c ∷ rest) h = h

connections_for-AreActive : (s : Snapshot) (prefix : String) → AreActive (connections_for s prefix)
unfolding connections_for
connections_for-AreActive s prefix =
    or_prefix-AreActive s prefix (active_connections s prefix)
      (active_connections-AreActive s prefix)

collect_fallback-IsCollected :
    (s : Snapshot) (o : Option (String × String)) (acc : Collected)
    → IsCollected acc
    → IsCollected (collect_fallback s o acc)
unfolding collect_fallback
collect_fallback-IsCollected s none acc h = h
collect_fallback-IsCollected s (some (provider, name)) acc h =
    collect_all-IsCollected provider _ _ acc (connections_for-AreActive s provider) h

collect_primary-IsCollected :
    (s : Snapshot) (model : String) (routing : RoutingConfig) (cs : List Connection)
    (acc : Collected)
    → AreActive cs
    → IsCollected acc
    → IsCollected (collect_primary s model routing cs acc)
unfolding collect_primary
collect_primary-IsCollected s model routing [] acc a h = h
collect_primary-IsCollected s model routing (c ∷ rest) acc a h =
    collect_fallback-IsCollected s (fallback_of routing.fallback_model) _
      (collect_all-IsCollected routing.primary_provider _ (c ∷ rest) acc a h)

collect_models-IsCollected :
    (s : Snapshot) (models : List String) (acc : Collected)
    → IsCollected acc
    → IsCollected (collect_models s models acc)
unfolding collect_models collect_model
collect_models-IsCollected s [] acc h = h
collect_models-IsCollected s (m ∷ rest) acc h = collect_models-IsCollected s rest _ (
    collect_primary-IsCollected s m (model_config s m).routing _ acc (connections_for-AreActive s _)
      h)

-- The candidates for any list of models never hold the same connection, provider and model twice,
-- and each of them stands over an active connection.
pub candidate_targets-Distinct :
    (s : Snapshot) (models : List String)
    → Distinct (candidate_targets s models)
      × All (λ t. t.connection.is_active ≡ true) (candidate_targets s models)
unfolding candidate_targets
candidate_targets-Distinct s models =
    let start : IsCollected nothing_collected = record {
      distinct = tt;
      active = tt;
      remembers = λ k. refl;
    } in
    let done = collect_models-IsCollected s models nothing_collected start in
    (done.distinct, done.active)
