-- ===== src/Live/Counting.antt =====
-- How reading, writing and deleting in the session map changes the number of unfinished sessions.
use my_ai_router.Common.{
  ℕ, suc, ◌+◌, ◌≤◌, ◌≡◌, refl, none, some, [], ◌∷◌, Dict, get, put, delete, if◌then◌else◌, String,
  eq_iff, length, arith, get-put, get-delete,
}
use my_ai_router.Live.{Session, drop_stale}

abbrev pub unfinished : Session → ℕ
unfinished s = if s.done then 0 else 1

abbrev pub running : Dict Session → ℕ
running [] = 0
running ((id, s) ∷ rest) = unfinished s + running rest

-- No id stands twice, as in a Go map.
abbrev pub Distinct : Dict Session → Type 0
Distinct [] = Unit {0}
Distinct ((id, s) ∷ rest) = (get id rest ≡ none) × Distinct rest

pub put-Distinct :
    (key : String) (s : Session) (d : Dict Session) → Distinct d → Distinct (put key s d)
unfolding put get
put-Distinct key s [] h = ground arith
put-Distinct key s ((id, r) ∷ rest) h =
    ground (arith, put-Distinct key s rest h.1, get-put key id s rest, eq_iff id key, eq_iff key id)

pub running-put_new :
    (key : String) (s : Session) (d : Dict Session)
    → get key d ≡ none
    → (running (put key s d) ≡ unfinished s + running d) × (length (put key s d) ≡ suc (length d))
unfolding put get
running-put_new key s [] h = (omega arith, omega arith)
running-put_new key s ((id, r) ∷ rest) h = ground (arith, running-put_new key s rest)

pub running-put_old :
    (key : String) (s r : Session) (d : Dict Session)
    → get key d ≡ some r
    → (running (put key s d) + unfinished r ≡ unfinished s + running d)
      × (length (put key s d) ≡ length d)
unfolding put get
running-put_old key s r [] h = cc
running-put_old key s r ((id, q) ∷ rest) h = ground (arith, running-put_old key s r rest)

get-drop_stale :
    (now : ℕ) (key : String) (d : Dict Session)
    → get key d ≡ none
    → get key (drop_stale now d) ≡ none
unfolding get drop_stale
get-drop_stale now key [] h = refl
get-drop_stale now key ((id, s) ∷ rest) h = ground (arith, get-drop_stale now key rest)

pub drop_stale-accounted :
    (now : ℕ) (d : Dict Session)
    → Distinct d
    → Distinct (drop_stale now d)
      × (running (drop_stale now d) ≡ running d)
      × (length (drop_stale now d) ≤ length d)
unfolding drop_stale
drop_stale-accounted now [] h = (tt, refl, omega arith)
drop_stale-accounted now ((id, s) ∷ rest) h =
    ground (arith, drop_stale-accounted now rest h.1, get-drop_stale now id rest h.0)

delete_absent : (key : String) (d : Dict Session) → get key d ≡ none → delete key d ≡ d
unfolding delete get
delete_absent key [] h = refl
delete_absent key ((id, s) ∷ rest) h = ground (arith, delete_absent key rest)

pub delete-accounted :
    (key : String) (s : Session) (d : Dict Session)
    → Distinct d
    → get key d ≡ some s
    → (running (delete key d) + unfinished s ≡ running d) × (suc (length (delete key d)) ≡ length d)
unfolding delete get
delete-accounted key s [] h e = cc
delete-accounted key s ((id, r) ∷ rest) h e =
    ground (arith, eq_iff id key, delete_absent id rest h.0, delete-accounted key s rest h.1)

pub delete-Distinct : (key : String) (d : Dict Session) → Distinct d → Distinct (delete key d)
unfolding delete
delete-Distinct key [] h = tt
delete-Distinct key ((id, s) ∷ rest) h =
    ground (arith, delete-Distinct key rest h.1, get-delete key id rest)
