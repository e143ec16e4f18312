-- ===== src/Routing/Health.antt =====
-- What the ordering by health keeps, drops and sorts.
use mathlib.Core.List.{Perm}
use mathlib.Core.List.Perm
use my_ai_router.Common.{
  ℕ, zero, suc, ◌≡◌, refl, subst, true, false, List, [], ◌∷◌, ◌++◌, keep_if, arith, Bool-cases, inl,
  inr,
}
use my_ai_router.Health.{Tracker, Latency, unsampled, estimate, latency_ms, faster}
use my_ai_router.Context.{Target}
use my_ai_router.Routing.Order.{
  is_rested, rested_or_all, less, insert, sort_stable, span_group, order_groups, order_by_health,
}

insert-perm :
    (health : Tracker) (t : Target) (ts : List Target) → Perm (insert health t ts) (t ∷ ts)
unfolding insert
insert-perm health t [] = Perm.refl _
insert-perm health t (u ∷ rest) = elim (Bool-cases (less health u t)) [
  | inl e ↦ rw e (Perm.trans (Perm.cons u (insert-perm health t rest)) (Perm.swap t u rest))
  | inr e ↦ rw e (Perm.refl _)
]

sort_stable-perm : (health : Tracker) (ts : List Target) → Perm (sort_stable health ts) ts
unfolding sort_stable
sort_stable-perm health [] = Perm.refl _
sort_stable-perm health (t ∷ rest) =
    Perm.trans (insert-perm health t (sort_stable health rest))
      (Perm.cons t (sort_stable-perm health rest))

span_group-append :
    (t : Target) (ts : List Target) → (span_group t ts).0 ++ (span_group t ts).1 ≡ ts
unfolding span_group
span_group-append t [] = refl
span_group-append t (u ∷ rest) = ground (arith, span_group-append t rest)

order_groups-perm :
    (health : Tracker) (fuel : ℕ) (ts : List Target) → Perm (order_groups health fuel ts) ts
unfolding order_groups
order_groups-perm health zero ts = Perm.refl ts
order_groups-perm health (suc fuel) [] = Perm.refl []
order_groups-perm health (suc fuel) (t ∷ rest) =
    let (group, others) = span_group t rest in
    Perm.trans
      (Perm.append (sort_stable-perm health (t ∷ group)) (order_groups-perm health fuel others))
      (subst (λ l. Perm (t ∷ group ++ others) (t ∷ l)) (span_group-append t rest) (Perm.refl _))

-- The ordering by health neither loses nor makes up a target: it permutes those whose connection is
-- not in cooldown, or all of them where every connection is in cooldown.
pub order_by_health-perm :
    (health : Tracker) (now : ℕ) (targets : List Target)
    → Perm
        (order_by_health health now targets)
        (rested_or_all targets (keep_if (is_rested health now) targets))
unfolding order_by_health
order_by_health-perm health now targets =
    order_groups-perm health _ (rested_or_all targets (keep_if (is_rested health now) targets))

-- No target stands directly in front of one that is less than it.
abbrev pub IsOrdered : Tracker → List Target → Type 0
IsOrdered health [] = Unit {0}
IsOrdered health (t ∷ []) = Unit {0}
IsOrdered health (t ∷ u ∷ rest) = (less health u t ≡ false) × IsOrdered health (u ∷ rest)

faster_asym : (a b : Latency) → faster a b ≡ true → faster b a ≡ false
unfolding faster
faster_asym unsampled unsampled h = refl
faster_asym unsampled (estimate b) h = refl
faster_asym (estimate a) unsampled h = cc
faster_asym (estimate a) (estimate b) h = ground arith

less_asym : (health : Tracker) (a b : Target) → less health a b ≡ true → less health b a ≡ false
unfolding less
less_asym health a b h =
    ground
      (arith, faster_asym (latency_ms health a.connection.id) (latency_ms health b.connection.id))

abbrev Above : Tracker → Target → List Target → Type 0
Above health u [] = Unit {0}
Above health u (x ∷ rest) = less health x u ≡ false

IsOrdered-cons :
    (health : Tracker) (u : Target) (ts : List Target)
    → Above health u ts
    → IsOrdered health ts
    → IsOrdered health (u ∷ ts)
IsOrdered-cons health u [] a h = tt
IsOrdered-cons health u (x ∷ rest) a h = (a, h)

IsOrdered-split :
    (health : Tracker) (u : Target) (ts : List Target)
    → IsOrdered health (u ∷ ts)
    → Above health u ts × IsOrdered health ts
IsOrdered-split health u [] h = (tt, tt)
IsOrdered-split health u (x ∷ rest) h = h

insert-Above :
    (health : Tracker) (u t : Target) (ts : List Target)
    → less health t u ≡ false
    → Above health u ts
    → Above health u (insert health t ts)
unfolding insert
insert-Above health u t [] e a = e
insert-Above health u t (v ∷ rest) e a = elim (Bool-cases (less health v t)) [
  | inl f ↦ rw f a
  | inr f ↦ rw f e
]

insert-IsOrdered :
    (health : Tracker) (t : Target) (ts : List Target)
    → IsOrdered health ts
    → IsOrdered health (insert health t ts)
unfolding insert
insert-IsOrdered health t [] h = tt
insert-IsOrdered health t (u ∷ rest) h =
    let (above, ordered) = IsOrdered-split health u rest h in
    elim (Bool-cases (less health u t)) [
      | inl e ↦ rw e (
          IsOrdered-cons health u (insert health t rest)
            (insert-Above health u t rest (less_asym health u t e) above)
            (insert-IsOrdered health t rest ordered))
      | inr e ↦ rw e (e, h)
    ]

-- Within a group the accounts stand by priority, and those of equal priority by measured latency.
pub sort_stable-IsOrdered :
    (health : Tracker) (ts : List Target) → IsOrdered health (sort_stable health ts)
unfolding sort_stable
sort_stable-IsOrdered health [] = tt
sort_stable-IsOrdered health (t ∷ rest) =
    insert-IsOrdered health t (sort_stable health rest) (sort_stable-IsOrdered health rest)
