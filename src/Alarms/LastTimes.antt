-- ===== src/Alarms/LastTimes.antt =====
-- The time of the last run of an alarm, under the changes of the entries (srv_common/dailyUpdateMgr.cpp).
use apollolib.Base.{
  ℕ, ◌≡◌, refl, ap, true, Option, none, some, List, [], ◌∷◌, ◌++◌, ◌==◌, if◌then◌else◌, arith, ◌⊎◌,
  inl, inr, Bool-cases,
}
use mathlib.Core.Option.{some-injective}
use apollolib.Alarms.Events.{EventInfo, get_event_info, set_last}

-- When an alarm ran last, if it has an entry.
unfoldable pub last_of : ℕ → List EventInfo → Option ℕ
last_of id [] = none
last_of id (e ∷ l) = if id == e.id then some e.last_run_tm else last_of id l

pub last_none : (id : ℕ) (l : List EventInfo) → get_event_info id l ≡ none → last_of id l ≡ none
unfolding last_of get_event_info
last_none id [] e = refl
last_none id (x ∷ l) e = ground (arith, last_none id l)

pub last_some :
    (id : ℕ) (l : List EventInfo) (e : EventInfo)
    → get_event_info id l ≡ some e
    → last_of id l ≡ some e.last_run_tm
unfolding last_of get_event_info
last_some id [] e h = cc
last_some id (x ∷ l) e h = elim (Bool-cases (id == x.id)) [
  | inl here ↦ rw here (
      ap some (
        ap (λ (y : EventInfo). y.last_run_tm)
          (some-injective x e (rw (here, get_event_info) at h))))
  | inr later ↦ rw later (last_some id l e (rw (later, get_event_info) at h))
]

pub last_of-set_last :
    (id j t : ℕ) (l : List EventInfo)
    → (last_of id (set_last j t l) ≡ last_of id l) ⊎ (last_of id (set_last j t l) ≡ some t)
unfolding last_of set_last
last_of-set_last id j t [] = inl refl
last_of-set_last id j t (x ∷ l) = elim (Bool-cases (j == x.id)) [
  | inl hit ↦ elim (Bool-cases (id == x.id)) [
    | inl here ↦ inr (rw hit (rw here refl))
    | inr away ↦ inl (rw hit (rw away refl))
  ]
  | inr miss ↦ elim (Bool-cases (id == x.id)) [
    | inl here ↦ inl (rw (miss, here) refl)
    | inr away ↦ rw (miss, away) (last_of-set_last id j t l)
  ]
]

pub set_last_here :
    (id t u : ℕ) (l : List EventInfo)
    → last_of id l ≡ some u
    → last_of id (set_last id t l) ≡ some t
unfolding last_of set_last
set_last_here id t u [] e = cc
set_last_here id t u (x ∷ l) e = elim (Bool-cases (id == x.id)) [
  | inl here ↦ rw here (rw here refl)
  | inr away ↦ rw away (rw away (set_last_here id t u l (rw (away, last_of) at e)))
]

pub last_of-append :
    (id : ℕ) (x : EventInfo) (l : List EventInfo)
    → (last_of id (l ++ (x ∷ [])) ≡ last_of id l)
      ⊎ (last_of id (l ++ (x ∷ [])) ≡ some x.last_run_tm)
unfolding last_of
last_of-append id x [] = elim (Bool-cases (id == x.id)) [
  | inl here ↦ inr (rw here refl)
  | inr away ↦ inl (rw away refl)
]
last_of-append id x (y ∷ l) = elim (Bool-cases (id == y.id)) [
  | inl here ↦ inl (rw here refl)
  | inr away ↦ rw away (last_of-append id x l)
]

pub append_here :
    (x : EventInfo) (l : List EventInfo)
    → last_of x.id l ≡ none
    → last_of x.id (l ++ (x ∷ [])) ≡ some x.last_run_tm
unfolding last_of
append_here x [] e = let same : (x.id == x.id) ≡ true = ground arith in rw same refl
append_here x (y ∷ l) e = elim (Bool-cases (x.id == y.id)) [
  | inl here ↦ cc (rw (here, last_of) at e)
  | inr away ↦ rw away (append_here x l (rw (away, last_of) at e))
]
