-- ===== src/RankMap/TopRanks.antt =====
-- `trytoAdd` keeps the first nodes of the list of all nodes, best first (include/rankMap.h).
use apollolib.Base.{
  ℕ, zero, suc, ◌≤◌, ◌<◌, ◌≡◌, refl, sym, ap, ◌∙◌, Bool, true, false, none, some, List, [], ◌∷◌,
  ◌++◌, ltb, if◌then◌else◌, length, length-append, arith, All, inl, inr, Bool-cases, Option-cases,
}
use mathlib.Core.Option.{some-injective}
use apollolib.RankMap.Take.{take, take_all, pop_back-take, take_front, take_append}
use apollolib.RankMap.{RankNode, insert_before, tryto_add}

module _ {I V : Type 0} (ge : I → I → Bool) where
  -- The list of all nodes: a node goes before the first one that it is not below.
  unfoldable pub insert : RankNode I V → List (RankNode I V) → List (RankNode I V)
  insert x [] = x ∷ []
  insert x (y ∷ l) = if ge x.first y.first then x ∷ (y ∷ l) else y ∷ insert x l

  length-insert :
      (x : RankNode I V) (l : List (RankNode I V)) → length (insert x l) ≡ suc (length l)
  unfolding insert
  length-insert x [] = refl
  length-insert x (y ∷ l) = elim (Bool-cases (ge x.first y.first)) [
    | inl over ↦ rw over refl
    | inr under ↦ rw under (ap suc (length-insert x l))
  ]

  insert_found :
      (x : RankNode I V) (l l' : List (RankNode I V))
      → insert_before ge x l ≡ some l'
      → insert x l ≡ l'
  unfolding insert insert_before
  insert_found x [] l' e = cc
  insert_found x (y ∷ l) l' e = elim (Bool-cases (ge x.first y.first)) [
    | inl over ↦ rw over (some-injective (x ∷ (y ∷ l)) l' (rw (over, insert_before) at e))
    | inr under ↦ elim (Option-cases (insert_before ge x l)) [
      | inl n ↦ cc (rw (under, n, insert_before) at e)
      | inr (r, f) ↦ rw under (
          ap (λ t. y ∷ t) (insert_found x l r f)
          ∙ some-injective (y ∷ r) l' (rw (under, f, insert_before) at e))
    ]
  ]

  insert_last :
      (x : RankNode I V) (l : List (RankNode I V))
      → insert_before ge x l ≡ none
      → insert x l ≡ l ++ (x ∷ [])
  unfolding insert insert_before
  insert_last x [] e = refl
  insert_last x (y ∷ l) e = elim (Bool-cases (ge x.first y.first)) [
    | inl over ↦ cc (rw (over, insert_before) at e)
    | inr under ↦ elim (Option-cases (insert_before ge x l)) [
      | inl n ↦ rw under (ap (λ t. y ∷ t) (insert_last x l n))
      | inr (r, f) ↦ cc (rw (under, f, insert_before) at e)
    ]
  ]

  added_alone :
      (capacity : ℕ) (x : RankNode I V) → 0 < capacity → x ∷ [] ≡ take capacity (insert x [])
  unfolding insert
  added_alone capacity x pos = sym (take_all capacity (x ∷ []) (omega arith))

  -- One call keeps the first `capacity` nodes.
  tryto_add-take :
      (capacity : ℕ) (x : RankNode I V) (l : List (RankNode I V))
      → 0 < capacity
      → length l ≤ capacity
      → (tryto_add ge capacity x l).1 ≡ take capacity (insert x l)
  unfolding tryto_add
  tryto_add-take capacity x [] pos le = added_alone capacity x pos
  tryto_add-take capacity x (y ∷ l) pos le = elim (Option-cases (insert_before ge x (y ∷ l))) [
    | inr (l', e) ↦
        let same : insert x (y ∷ l) ≡ l' = insert_found x (y ∷ l) l' e in
        let long : length l' ≡ suc (length (y ∷ l)) =
          sym (ap length same) ∙ length-insert x (y ∷ l) in
        elim (Bool-cases (ltb capacity (length l'))) [
          | inl over ↦
              rw (e, over, tryto_add)
                (pop_back-take capacity l' (ground arith) ∙ ap (take capacity) (sym same))
          | inr fits ↦
              rw (e, fits, tryto_add)
                (sym (take_all capacity l' (ground arith)) ∙ ap (take capacity) (sym same))
        ]
    | inl e ↦
        let same = insert_last x (y ∷ l) e in
        elim (Bool-cases (ltb (length (y ∷ l)) capacity)) [
          | inl room ↦
              rw (e, room, tryto_add)
                (sym (
                    take_all capacity ((y ∷ l) ++ (x ∷ []))
                      (ground (arith, length-append l (x ∷ []))))
                  ∙ ap (take capacity) (sym same))
          | inr full ↦
              let kept : ltb capacity (length (y ∷ l)) ≡ false = ground arith in
              let size : length (y ∷ l) ≡ capacity = ground arith in
              rw (e, full, kept, tryto_add)
                (sym (
                  ap (take capacity) same
                  ∙ ap (λ n. take n ((y ∷ l) ++ (x ∷ []))) (sym size)
                  ∙ take_append (y ∷ l) (x ∷ [])))
        ]
  ]

  take-insert :
      (k : ℕ) (x : RankNode I V) (l : List (RankNode I V))
      → take k (insert x (take k l)) ≡ take k (insert x l)
  unfolding take insert
  take-insert zero x l = refl
  take-insert (suc k) x [] = refl
  take-insert (suc k) x (y ∷ l) = elim (Bool-cases (ge x.first y.first)) [
    | inl over ↦ rw over (ap (λ t. x ∷ t) (take_front k y l))
    | inr under ↦ rw under (ap (λ t. y ∷ t) (take-insert k x l))
  ]

  length-take_le : (k : ℕ) (l : List (RankNode I V)) → length (take k l) ≤ k
  unfolding take
  length-take_le zero l = omega arith
  length-take_le (suc k) [] = omega arith
  length-take_le (suc k) (x ∷ l) = omega (arith, length-take_le k l)

  -- All calls of a run, on the map and on the list of all nodes.
  unfoldable pub add_all : ℕ → List (RankNode I V) → List (RankNode I V) → List (RankNode I V)
  add_all capacity [] l = l
  add_all capacity (x ∷ xs) l = add_all capacity xs (tryto_add ge capacity x l).1

  unfoldable pub insert_all : List (RankNode I V) → List (RankNode I V) → List (RankNode I V)
  insert_all [] l = l
  insert_all (x ∷ xs) l = insert_all xs (insert x l)

  add_all_from :
      (capacity : ℕ) (xs l : List (RankNode I V))
      → 0 < capacity
      → add_all capacity xs (take capacity l) ≡ take capacity (insert_all xs l)
  unfolding add_all insert_all
  add_all_from capacity [] l pos = refl
  add_all_from capacity (x ∷ xs) l pos =
      ap (add_all capacity xs) (
        tryto_add-take capacity x (take capacity l) pos (length-take_le capacity l)
        ∙ take-insert capacity x l)
      ∙ add_all_from capacity xs (insert x l) pos

  -- The map with room for `capacity` > 0 nodes, filled by any sequence of calls of `trytoAdd`
  -- from empty, holds the first `capacity` nodes of the list into which all of them are inserted,
  -- each before the first node that it is not below.
  pub add_all-take :
      (capacity : ℕ) (xs : List (RankNode I V))
      → 0 < capacity
      → add_all capacity xs [] ≡ take capacity (insert_all xs [])
  unfolding take
  add_all-take capacity xs pos =
      ap (add_all capacity xs) (sym (take_all capacity [] (omega arith)))
      ∙ add_all_from capacity xs [] pos

  -- Best first.
  abbrev pub IsDescending : List (RankNode I V) → Type 0
  IsDescending [] = Unit
  IsDescending (x ∷ l) = All (λ y. ge x.first y.first ≡ true) l × IsDescending l

  module _ (total : (a b : I) → ge a b ≡ false → ge b a ≡ true)
      (trans : (a b c : I) → ge a b ≡ true → ge b c ≡ true → ge a c ≡ true) where
    All-below :
        (x y : RankNode I V) (l : List (RankNode I V))
        → ge x.first y.first ≡ true
        → All (λ z. ge y.first z.first ≡ true) l
        → All (λ z. ge x.first z.first ≡ true) l
    All-below x y [] e a = tt
    All-below x y (z ∷ l) e (b, a) = (trans x.first y.first z.first e b, All-below x y l e a)

    below-insert :
        (x y : RankNode I V) (l : List (RankNode I V))
        → ge y.first x.first ≡ true
        → All (λ z. ge y.first z.first ≡ true) l
        → All (λ z. ge y.first z.first ≡ true) (insert x l)
    unfolding insert
    below-insert x y [] e a = (e, tt)
    below-insert x y (z ∷ l) e (b, a) = elim (Bool-cases (ge x.first z.first)) [
      | inl over ↦ rw over (e, (b, a))
      | inr under ↦ rw under (b, below-insert x y l e a)
    ]

    insert-IsDescending :
        (x : RankNode I V) (l : List (RankNode I V)) → IsDescending l → IsDescending (insert x l)
    unfolding insert
    insert-IsDescending x [] d = (tt, tt)
    insert-IsDescending x (y ∷ l) (a, d) = elim (Bool-cases (ge x.first y.first)) [
      | inl over ↦ rw over ((over, All-below x y l over a), (a, d))
      | inr under ↦
          rw under (below-insert x y l (total x.first y.first under) a, insert-IsDescending x l d)
    ]

    All-take :
        (P : RankNode I V → Type 0) (k : ℕ) (l : List (RankNode I V)) → All P l → All P (take k l)
    unfolding take
    All-take P zero l a = tt
    All-take P (suc k) [] a = tt
    All-take P (suc k) (x ∷ l) (p, a) = (p, All-take P k l a)

    take-IsDescending : (k : ℕ) (l : List (RankNode I V)) → IsDescending l → IsDescending (take k l)
    unfolding take
    take-IsDescending zero l d = tt
    take-IsDescending (suc k) [] d = tt
    take-IsDescending (suc k) (x ∷ l) (a, d) =
        (All-take (λ y. ge x.first y.first ≡ true) k l a, take-IsDescending k l d)

    -- For a total and transitive order, `trytoAdd` keeps the nodes in descending order and at
    -- most `capacity` > 0 of them.
    pub tryto_add-IsDescending :
        (capacity : ℕ) (x : RankNode I V) (l : List (RankNode I V))
        → 0 < capacity
        → length l ≤ capacity
        → IsDescending l
        → IsDescending (tryto_add ge capacity x l).1
          × (length (tryto_add ge capacity x l).1 ≤ capacity)
    tryto_add-IsDescending capacity x l pos le d = rw (tryto_add-take capacity x l pos le) (
      take-IsDescending capacity (insert x l) (insert-IsDescending x l d),
      length-take_le capacity (insert x l),
    )
