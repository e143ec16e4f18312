-- ===== src/Live/Accounting.antt =====
-- The counter of running requests and the size of the session map, under every operation.
use my_ai_router.Common.{
  ℕ, suc, ◌+◌, ◌-◌, ◌≤◌, ◌≡◌, refl, Bool, true, false, Option, none, some, [], ◌∷◌, Dict, get, put,
  ltb, leb, leb→le, if◌then◌else◌, String, eq_iff, is_empty, length, arith, inl, inr, Bool-cases,
  Option-cases,
}
use my_ai_router.Live.{
  Session, ActivityTracker, new_session, drop_stale, older_of, oldest, evict, reap, begin_activity,
  update, update_found, activity_max_sessions,
}
use my_ai_router.Live.Sessions.{close_found, finish}
use my_ai_router.Live.Counting.{
  running, Distinct, put-Distinct, running-put_new, running-put_old, drop_stale-accounted,
  delete-accounted, delete-Distinct,
}

-- The counter is the number of unfinished sessions, and the map holds one more than the cap at most.
pub record IsAccounted (t : ActivityTracker) : Type 0 where
  pub distinct : Distinct t.sessions
  pub counted : t.active ≡ running t.sessions
  pub bounded : length t.sessions ≤ activity_max_sessions + 1

older_of-get :
    (j id : String) (r s : Session) (rest : Dict Session) (o : Option (String × Session))
    → get j rest ≡ none
    → ((k : String) (q : Session) → o ≡ some (k, q) → get k rest ≡ some q)
    → older_of (j, r) o ≡ (id, s)
    → get id ((j, r) ∷ rest) ≡ some s
unfolding older_of get
older_of-get j id r s rest none fresh known e = ground (arith, eq_iff j id)
older_of-get j id r s rest (some (k, q)) fresh known e =
    ground (arith, eq_iff j id, eq_iff j k, known k q refl)

-- The session chosen for eviction is in the map.
oldest-get :
    (d : Dict Session) (id : String) (s : Session)
    → Distinct d
    → oldest d ≡ some (id, s)
    → get id d ≡ some s
unfolding oldest
oldest-get [] id s h e = cc
oldest-get ((j, r) ∷ rest) id s h e =
    older_of-get j id r s rest (oldest rest) h.0 (λ k q. oldest-get rest k q h.1) (ground arith)

evict-IsAccounted :
    (t : ActivityTracker) (id : String) (s : Session)
    → IsAccounted t
    → get id t.sessions ≡ some s
    → IsAccounted (evict t (some (id, s)))
      × (suc (length (evict t (some (id, s))).sessions) ≡ length t.sessions)
unfolding evict
evict-IsAccounted t id s h e =
    ground (
      arith,
      delete-accounted id s t.sessions h.distinct e,
      delete-Distinct id t.sessions h.distinct,
    )

oldest-none : (d : Dict Session) → oldest d ≡ none → length d ≡ 0
unfolding oldest
oldest-none [] e = refl
oldest-none ((j, r) ∷ rest) e = cc

abbrev HasRoom : ActivityTracker → Type 0
HasRoom t = length t.sessions ≤ activity_max_sessions

evict-oldest-IsAccounted :
    (t : ActivityTracker) (o : Option (String × Session))
    → oldest t.sessions ≡ o
    → IsAccounted t
    → IsAccounted (evict t o) × HasRoom (evict t o)
evict-oldest-IsAccounted t none e h = unfold evict in (h, omega (arith, oldest-none t.sessions e))
evict-oldest-IsAccounted t (some (id, s)) e h =
    let (accounted, smaller) =
      evict-IsAccounted t id s h (oldest-get t.sessions id s h.distinct e) in
    (accounted, omega (arith, h.bounded))

drop_stale-IsAccounted :
    (t : ActivityTracker) (now : ℕ)
    → IsAccounted t
    → IsAccounted (record t { sessions = drop_stale now t.sessions })
drop_stale-IsAccounted t now h = ground (arith, drop_stale-accounted now t.sessions h.distinct)

-- A sweep keeps the accounts in order and makes room for one session.
pub reap-IsAccounted :
    (t : ActivityTracker) (now : ℕ)
    → IsAccounted t
    → IsAccounted (reap t now) × HasRoom (reap t now)
unfolding reap
reap-IsAccounted t now h =
    let kept = record t { sessions = drop_stale now t.sessions } in
    elim (Bool-cases (leb (length (drop_stale now t.sessions)) activity_max_sessions)) [
      | inl small ↦ rw small (drop_stale-IsAccounted t now h, leb→le _ _ small)
      | inr large ↦ rw large (
          evict-oldest-IsAccounted kept (oldest kept.sessions) refl
            (drop_stale-IsAccounted t now h))
    ]

-- Opening a session under a fresh id keeps the accounts in order.
pub begin_activity-IsAccounted :
    (t : ActivityTracker) (id model : String) (now : ℕ)
    → get id (reap t now).sessions ≡ none
    → IsAccounted t
    → IsAccounted (begin_activity t id model now).0
unfolding begin_activity
begin_activity-IsAccounted t id model now fresh h = ground (
  arith,
  reap-IsAccounted t now h,
  put-Distinct id (new_session model now) (reap t now).sessions,
  running-put_new id (new_session model now) (reap t now).sessions fresh,
)

-- So does every progress report that leaves the session unfinished.
pub update-IsAccounted :
    (t : ActivityTracker) (id : String) (f : Session → Session)
    → ((s : Session) → s.done ≡ false → (f s).done ≡ false)
    → IsAccounted t
    → IsAccounted (update t id f)
unfolding update
update-IsAccounted t id f keeps h = elim (Option-cases (get id t.sessions)) [
  | inl e ↦ rw (e, update_found) (ground arith)
  | inr (s, e) ↦
      rw (e, update_found)
        (ground (
          arith,
          keeps s,
          put-Distinct id (f s) t.sessions h.distinct,
          running-put_old id (f s) s t.sessions e,
        ))
]

closed-IsAccounted :
    (t : ActivityTracker) (id : String) (s closed : Session) (errors : ℕ)
    → get id t.sessions ≡ some s
    → s.done ≡ false
    → closed.done ≡ true
    → IsAccounted t
    → IsAccounted (record t {
      sessions = put id closed t.sessions;
      active = if ltb 0 t.active then t.active - 1 else t.active;
      errors = errors;
    })
closed-IsAccounted t id s closed errors e a b h =
    ground (
      arith,
      put-Distinct id closed t.sessions h.distinct,
      running-put_old id closed s t.sessions e,
    )

close_found-IsAccounted :
    (t : ActivityTracker) (id : String) (close : Session → Session) (ok : Bool) (now : ℕ)
    (o : Option Session)
    → get id t.sessions ≡ o
    → ((s : Session) → (close s).done ≡ true)
    → IsAccounted t
    → IsAccounted (close_found t id close ok now o)
unfolding close_found
close_found-IsAccounted t id close ok now none e closes h = h
close_found-IsAccounted t id close ok now (some s) e closes h = elim (Bool-cases s.done) [
  | inl d ↦ rw d h
  | inr d ↦
      let errors = if ok then t.errors else t.errors + 1 in
      simp d
        (reap-IsAccounted _ now (closed-IsAccounted t id s (close s) errors e d (closes s) h)).0
]

-- Finishing a request, twice or under an unknown id too, keeps the accounts in order.
pub finish-IsAccounted :
    (t : ActivityTracker) (id : String) (code : ℕ) (ok : Bool) (prompt completion : ℕ)
    (err : String) (now : ℕ)
    → IsAccounted t
    → IsAccounted (finish t id code ok prompt completion err now)
unfolding finish
finish-IsAccounted t id code ok prompt completion err now h = elim (Bool-cases (is_empty id)) [
  | inl e ↦ rw e h
  | inr e ↦ rw e (close_found-IsAccounted t id _ ok now (get id t.sessions) refl (λ s. refl) h)
]
