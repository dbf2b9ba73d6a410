-- ===== src/Alarms/Repeated.antt =====
-- A second `Update` at the same time (srv_common/dailyUpdateMgr.cpp).
use apollolib.Base.{
  ℕ, ◌≡◌, ◌≢◌, refl, sym, ap, subst, ◌∙◌, Option, none, some, List, [], ◌∷◌, All, ◌⊎◌, inl, inr,
  Option-cases,
}
use apollolib.Base.Text.{Text}
use apollolib.Alarms.Events.{
  Alarms, Outcome, ahead, fires, rests, get_event_info, add, call, apply, apply_first, update_one,
  update,
}
use apollolib.Alarms.LastTimes.{
  last_of, last_none, last_some, last_of-set_last, set_last_here, last_of-append, append_here,
}

-- The time of the last run of an alarm stays or becomes the present.
abbrev AreKept : ℕ → Alarms → Alarms → Type 0
AreKept now s s' =
    (id : ℕ)
    → (last_of id s'.last_run_info ≡ last_of id s.last_run_info)
      ⊎ (last_of id s'.last_run_info ≡ some now)

apply-AreKept :
    (id : ℕ) (name : Text) (now : ℕ) (o : Outcome) (s : Alarms)
    → AreKept now s (apply id name now o s)
unfolding apply
apply-AreKept id name now rests s j = inl refl
apply-AreKept id name now ahead s j = last_of-set_last j id now s.last_run_info
apply-AreKept id name now (fires n) s j = last_of-set_last j id now s.last_run_info

add-AreKept : (id : ℕ) (name : Text) (now : ℕ) (s : Alarms) → AreKept now s (add id name now s)
unfolding add
add-AreKept id name now s j = elim (Option-cases (get_event_info id s.last_run_info)) [
  | inl e ↦
      rw (e, add)
        (last_of-append j (record { id = id; name = name; last_run_tm = now }) s.last_run_info)
  | inr (i, e) ↦ rw (e, add) (last_of-set_last j id now s.last_run_info)
]

apply_first-AreKept :
    (id : ℕ) (name : Text) (now : ℕ) (o : Outcome) (s : Alarms)
    → AreKept now s (apply_first id name now o s)
unfolding apply_first
apply_first-AreKept id name now rests s j = inl refl
apply_first-AreKept id name now ahead s j = inl refl
apply_first-AreKept id name now (fires n) s j = add-AreKept id name now (call name n s) j

add_here :
    (id : ℕ) (name : Text) (now : ℕ) (s : Alarms)
    → get_event_info id s.last_run_info ≡ none
    → last_of id (add id name now s).last_run_info ≡ some now
unfolding add
add_here id name now s e =
    rw (e, add)
      (append_here (record { id = id; name = name; last_run_tm = now }) s.last_run_info
        (last_none id s.last_run_info e))

module _ {C : Type 0} (id_of : C → ℕ) (name_of : C → Text) (now : ℕ) (first : C → Outcome)
    (later : C → ℕ → Outcome) (IsSound : C → Type 0)
    (settles : (c : C) → IsSound c → later c now ≡ rests)
    (in_past : (c : C) → IsSound c → first c ≢ ahead) where
  -- The alarm has nothing to do, when it ran last at a time or never.
  abbrev IsDone : C → Option ℕ → Type 0
  IsDone c none = first c ≡ rests
  IsDone c (some t) = later c t ≡ rests

  abbrev IsQuiet : C → Alarms → Type 0
  IsQuiet c s = IsDone c (last_of (id_of c) s.last_run_info)

  update_one-AreKept :
      (c : C) (s : Alarms) → AreKept now s (update_one id_of name_of now first later c s)
  unfolding update_one
  update_one-AreKept c s j = elim (Option-cases (get_event_info (id_of c) s.last_run_info)) [
    | inl e ↦ rw (e, update_one) (apply_first-AreKept (id_of c) (name_of c) now (first c) s j)
    | inr (i, e) ↦
        rw (e, update_one) (apply-AreKept (id_of c) (name_of c) now (later c i.last_run_tm) s j)
  ]

  IsQuiet-now :
      (c : C) (s : Alarms) → IsSound c → last_of (id_of c) s.last_run_info ≡ some now → IsQuiet c s
  IsQuiet-now c s ok e = subst (IsDone c) (sym e) (settles c ok)

  update_one-IsQuiet :
      (c d : C) (s : Alarms)
      → IsSound d
      → IsQuiet d s
      → IsQuiet d (update_one id_of name_of now first later c s)
  update_one-IsQuiet c d s ok q = elim (update_one-AreKept c s (id_of d)) [
    | inl same ↦ subst (IsDone d) (sym same) q
    | inr new ↦ IsQuiet-now d (update_one id_of name_of now first later c s) ok new
  ]

  outcome_cases : (o : Outcome) → (o ≡ rests) ⊎ ((o ≡ ahead) ⊎ ((n : ℕ) × (o ≡ fires n)))
  outcome_cases rests = inl refl
  outcome_cases ahead = inr (inl refl)
  outcome_cases (fires n) = inr (inr (n, refl))

  -- An alarm has nothing to do after its turn.
  turn-IsQuiet :
      (c : C) (s : Alarms) → IsSound c → IsQuiet c (update_one id_of name_of now first later c s)
  unfolding update_one apply apply_first
  turn-IsQuiet c s ok = elim (Option-cases (get_event_info (id_of c) s.last_run_info)) [
    | inl e ↦ elim (outcome_cases (first c)) [
      | inl r ↦
          rw (e, r, update_one) (subst (IsDone c) (sym (last_none (id_of c) s.last_run_info e)) r)
      | inr (inl a) ↦ absurd (in_past c ok a)
      | inr (inr (n, f)) ↦
          rw (e, f, update_one)
            (IsQuiet-now c (add (id_of c) (name_of c) now (call (name_of c) n s)) ok
              (add_here (id_of c) (name_of c) now (call (name_of c) n s) e))
    ]
    | inr (i, e) ↦
        let had = last_some (id_of c) s.last_run_info i e in
        let here = set_last_here (id_of c) now i.last_run_tm s.last_run_info had in
        elim (outcome_cases (later c i.last_run_tm)) [
          | inl r ↦ rw (e, r, update_one) (subst (IsDone c) (sym had) r)
          | inr (inl a) ↦ rw (e, a, update_one) (subst (IsDone c) (sym here) (settles c ok))
          | inr (inr (n, f)) ↦ rw (e, f, update_one) (subst (IsDone c) (sym here) (settles c ok))
        ]
  ]

  update_one_quiet :
      (c : C) (s : Alarms) → IsQuiet c s → update_one id_of name_of now first later c s ≡ s
  unfolding update_one apply apply_first
  update_one_quiet c s q = elim (Option-cases (get_event_info (id_of c) s.last_run_info)) [
    | inl e ↦
        let r : first c ≡ rests = subst (IsDone c) (last_none (id_of c) s.last_run_info e) q in
        rw (e, r, update_one) refl
    | inr (i, e) ↦
        let r : later c i.last_run_tm ≡ rests =
          subst (IsDone c) (last_some (id_of c) s.last_run_info i e) q in
        rw (e, r, update_one) refl
  ]

  update-IsQuiet :
      (cs : List C) (d : C) (s : Alarms)
      → IsSound d
      → IsQuiet d s
      → IsQuiet d (update id_of name_of now first later cs s)
  unfolding update
  update-IsQuiet [] d s ok q = q
  update-IsQuiet (c ∷ cs) d s ok q =
      update-IsQuiet cs d (update_one id_of name_of now first later c s) ok
        (update_one-IsQuiet c d s ok q)

  All-IsQuiet :
      (cs : List C) (s : Alarms)
      → All IsSound cs
      → All (λ c. IsQuiet c (update id_of name_of now first later cs s)) cs
  unfolding update
  All-IsQuiet [] s ok = tt
  All-IsQuiet (c ∷ cs) s ok =
      let s' = update_one id_of name_of now first later c s in
      (update-IsQuiet cs c s' ok.0 (turn-IsQuiet c s ok.0), All-IsQuiet cs s' ok.1)

  update_quiet :
      (cs : List C) (s : Alarms)
      → All (λ c. IsQuiet c s) cs
      → update id_of name_of now first later cs s ≡ s
  unfolding update
  update_quiet [] s a = refl
  update_quiet (c ∷ cs) s (q, a) =
      ap (update id_of name_of now first later cs) (update_one_quiet c s q) ∙ update_quiet cs s a

  pub update_twice :
      (cs : List C) (s : Alarms)
      → All IsSound cs
      → update id_of name_of now first later cs (update id_of name_of now first later cs s)
        ≡ update id_of name_of now first later cs s
  update_twice cs s ok =
      update_quiet cs (update id_of name_of now first later cs s) (All-IsQuiet cs s ok)
