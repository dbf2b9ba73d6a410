-- ===== src/Base/Maps.antt =====
-- `std::map`: the entries in ascending order of their keys.
use Prim.Native.Nat.{Ordering}
use mathlib.Core.Path.{◌≡◌, ◌∙◌, refl, sym, ap, subst}
use mathlib.Core.Logic.{◌⊎◌, inl, inr}
use mathlib.Core.List.{List, [], ◌∷◌, ◌++◌, append-nil, append_assoc}
use mathlib.Core.Option.{Option, none, some}
use native.Mathlib.Omega.{arith}
use apollolib.Base.Lists.{All, All-append}
use apollolib.Base.Keys.{Key}

pub Ordering-cases : (c : Ordering) → (c ≡ Ordering.lt) ⊎ ((c ≡ Ordering.eq) ⊎ (c ≡ Ordering.gt))
Ordering-cases Ordering.lt = inl refl
Ordering-cases Ordering.eq = inr (inl refl)
Ordering-cases Ordering.gt = inr (inr refl)

module _ {K V : Type 0} ⦃o : Key K⦄ where
  -- `find`
  unfoldable pub find : K → List (K × V) → Option V
  find k [] = none
  find k ((j, v) ∷ m) = elim (o.order k j) [ Ordering.eq ↦ some v | _ ↦ find k m ]

  -- `m[k] = v`
  unfoldable pub insert : K → V → List (K × V) → List (K × V)
  insert k v [] = (k, v) ∷ []
  insert k v ((j, w) ∷ m) = elim (o.order k j) [
    | Ordering.lt ↦ (k, v) ∷ ((j, w) ∷ m)
    | Ordering.eq ↦ (k, v) ∷ m
    | Ordering.gt ↦ (j, w) ∷ insert k v m
  ]

  -- `erase(k)`
  unfoldable pub erase : K → List (K × V) → List (K × V)
  erase k [] = []
  erase k ((j, w) ∷ m) = elim (o.order k j) [ Ordering.eq ↦ m | _ ↦ (j, w) ∷ erase k m ]

  -- Every key is greater.
  abbrev pub IsBelow : K → List (K × V) → Type 0
  IsBelow k m = All (λ e. o.order k e.0 ≡ Ordering.lt) m

  abbrev pub IsAscending : List (K × V) → Type 0
  IsAscending [] = Unit
  IsAscending (e ∷ m) = IsBelow e.0 m × IsAscending m

  IsBelow-trans :
      (i k : K) (m : List (K × V)) → o.order i k ≡ Ordering.lt → IsBelow k m → IsBelow i m
  IsBelow-trans i k [] h b = tt
  IsBelow-trans i k ((j, w) ∷ m) h b = (o.order_trans i k j h b.0, IsBelow-trans i k m h b.1)

  insert-IsBelow :
      (i k : K) (v : V) (m : List (K × V))
      → o.order i k ≡ Ordering.lt
      → IsBelow i m
      → IsBelow i (insert k v m)
  unfolding insert
  insert-IsBelow i k v [] h b = (h, tt)
  insert-IsBelow i k v ((j, w) ∷ m) h b =
      elim (o.order k j)
        as (λ c. IsBelow i (elim c [
          | Ordering.lt ↦ (k, v) ∷ ((j, w) ∷ m)
          | Ordering.eq ↦ (k, v) ∷ m
          | Ordering.gt ↦ (j, w) ∷ insert k v m
        ])) [
          | Ordering.lt ↦ (h, b)
          | Ordering.eq ↦ (h, b.1)
          | Ordering.gt ↦ (b.0, insert-IsBelow i k v m h b.1)
        ]

  insert_lt :
      (k j : K) (v w : V) (m : List (K × V))
      → o.order k j ≡ Ordering.lt
      → insert k v ((j, w) ∷ m) ≡ (k, v) ∷ ((j, w) ∷ m)
  unfolding insert
  insert_lt k j v w m h = ground arith

  insert_eq :
      (k j : K) (v w : V) (m : List (K × V))
      → o.order k j ≡ Ordering.eq
      → insert k v ((j, w) ∷ m) ≡ (j, v) ∷ m
  unfolding insert
  insert_eq k j v w m h = ground (arith, o.eq_of_order k j)

  insert_gt :
      (k j : K) (v w : V) (m : List (K × V))
      → o.order k j ≡ Ordering.gt
      → insert k v ((j, w) ∷ m) ≡ (j, w) ∷ insert k v m
  unfolding insert
  insert_gt k j v w m h = ground arith

  pub insert-IsAscending :
      (k : K) (v : V) (m : List (K × V)) → IsAscending m → IsAscending (insert k v m)
  unfolding insert
  insert-IsAscending k v [] a = (tt, tt)
  insert-IsAscending k v ((j, w) ∷ m) a = elim (Ordering-cases (o.order k j)) [
    | inl less ↦
        subst IsAscending (sym (insert_lt k j v w m less)) ((less, IsBelow-trans k j m less a.0), a)
    | inr (inl same) ↦ subst IsAscending (sym (insert_eq k j v w m same)) a
    | inr (inr more) ↦
        subst IsAscending (sym (insert_gt k j v w m more))
          (insert-IsBelow j k v m (o.order_flip k j more) a.0, insert-IsAscending k v m a.1)
  ]

  erase-IsBelow : (i k : K) (m : List (K × V)) → IsBelow i m → IsBelow i (erase k m)
  unfolding erase
  erase-IsBelow i k [] b = tt
  erase-IsBelow i k ((j, w) ∷ m) b = grind (arith, erase-IsBelow i k m)

  pub erase-IsAscending : (k : K) (m : List (K × V)) → IsAscending m → IsAscending (erase k m)
  unfolding erase
  erase-IsAscending k [] a = tt
  erase-IsAscending k ((j, w) ∷ m) a = grind (arith, erase-IsAscending k m, erase-IsBelow j k m)

  pub find-insert_self : (k : K) (v : V) (m : List (K × V)) → find k (insert k v m) ≡ some v
  unfolding find insert
  find-insert_self k v [] = ground (arith, o.order_refl k)
  find-insert_self k v ((j, w) ∷ m) = ground (arith, o.order_refl k, find-insert_self k v m)

  pub find-insert_ne :
      (i k : K) (v : V) (m : List (K × V))
      → (o.order i k ≡ Ordering.eq → ⊥)
      → find i (insert k v m) ≡ find i m
  unfolding find insert
  find-insert_ne i k v [] ne = ground (arith)
  find-insert_ne i k v ((j, w) ∷ m) ne =
      ground (arith, find-insert_ne i k v m ne, o.eq_of_order k j)

  -- A key below all others is not there.
  find-IsBelow : (k : K) (m : List (K × V)) → IsBelow k m → find k m ≡ none
  unfolding find
  find-IsBelow k [] b = refl
  find-IsBelow k ((j, w) ∷ m) b = ground (arith, find-IsBelow k m b.1)

  pub find-erase_self : (k : K) (m : List (K × V)) → IsAscending m → find k (erase k m) ≡ none
  unfolding find erase
  find-erase_self k [] a = refl
  find-erase_self k ((j, w) ∷ m) a =
      ground (arith, find-erase_self k m a.1, find-IsBelow j m a.0, o.eq_of_order k j)

  pub find-erase_ne :
      (i k : K) (m : List (K × V)) → (o.order i k ≡ Ordering.eq → ⊥) → find i (erase k m) ≡ find i m
  unfolding find erase
  find-erase_ne i k [] ne = refl
  find-erase_ne i k ((j, w) ∷ m) ne = ground (arith, find-erase_ne i k m ne, o.eq_of_order k j)

  -- A greatest key goes to the end.
  pub insert_last :
      (m : List (K × V)) (k : K) (v : V)
      → All (λ e. o.order e.0 k ≡ Ordering.lt) m
      → insert k v m ≡ m ++ ((k, v) ∷ [])
  unfolding insert
  insert_last [] k v a = refl
  insert_last ((j, w) ∷ m) k v a =
      insert_gt k j v w m (o.order_flip_lt j k a.0) ∙ ap (λ r. (j, w) ∷ r) (insert_last m k v a.1)

  pub find-insert :
      (i k : K) (v : V) (m : List (K × V))
      → find i (insert k v m) ≡ elim (o.order i k) [ Ordering.eq ↦ some v | _ ↦ find i m ]
  find-insert i k v m = elim (Ordering-cases (o.order i k)) [
    | inl less ↦ rw less (find-insert_ne i k v m (λ e. cc))
    | inr (inl same) ↦ rw same (rw (o.eq_of_order i k same) (find-insert_self k v m))
    | inr (inr more) ↦ rw more (find-insert_ne i k v m (λ e. cc))
  ]

  pub find-insert_back :
      (i k : K) (v w : V) (m : List (K × V))
      → find k m ≡ some w
      → find i (insert k w (insert k v m)) ≡ find i m
  find-insert_back i k v w m h = elim (Ordering-cases (o.order i k)) [
    | inl less ↦ find-insert_ne i k w (insert k v m) (λ e. cc) ∙ find-insert_ne i k v m (λ e. cc)
    | inr (inl same) ↦ rw (o.eq_of_order i k same) (find-insert_self k w (insert k v m) ∙ sym h)
    | inr (inr more) ↦
        find-insert_ne i k w (insert k v m) (λ e. cc) ∙ find-insert_ne i k v m (λ e. cc)
  ]

  pub find-erase :
      (i k : K) (m : List (K × V))
      → IsAscending m
      → find i (erase k m) ≡ elim (o.order i k) [ Ordering.eq ↦ none | _ ↦ find i m ]
  find-erase i k m a = elim (Ordering-cases (o.order i k)) [
    | inl less ↦ rw less (find-erase_ne i k m (λ e. cc))
    | inr (inl same) ↦ rw same (rw (o.eq_of_order i k same) (find-erase_self k m a))
    | inr (inr more) ↦ rw more (find-erase_ne i k m (λ e. cc))
  ]

  -- Entries written one after the other.
  abbrev pub insert_all : List (K × V) → List (K × V) → List (K × V)
  insert_all [] m = m
  insert_all ((k, v) ∷ l) m = insert_all l (insert k v m)

  -- Every key of the first map is less than every key of the second.
  abbrev pub Precedes : List (K × V) → List (K × V) → Type 0
  Precedes m [] = Unit
  Precedes m ((k, v) ∷ l) = All (λ e. o.order e.0 k ≡ Ordering.lt) m × Precedes m l

  pub Precedes-append :
      (m l : List (K × V)) (k : K) (v : V)
      → Precedes m l
      → IsBelow k l
      → Precedes (m ++ ((k, v) ∷ [])) l
  Precedes-append m [] k v p b = tt
  Precedes-append m ((j, w) ∷ l) k v p b = (
    All-append (λ (e : K × V). o.order e.0 j ≡ Ordering.lt) m ((k, v) ∷ []) p.0 (b.0, tt),
    Precedes-append m l k v p.1 b.1,
  )

  insert_all-append : (l m : List (K × V)) → IsAscending l → Precedes m l → insert_all l m ≡ m ++ l
  insert_all-append [] m a p = sym (append-nil m)
  insert_all-append ((k, v) ∷ l) m a p =
      ap (insert_all l) (insert_last m k v p.0)
      ∙ insert_all-append l (m ++ ((k, v) ∷ [])) a.1 (Precedes-append m l k v p.1 a.0)
      ∙ append_assoc m ((k, v) ∷ []) l

  pub Precedes-nil : (l : List (K × V)) → Precedes [] l
  Precedes-nil [] = tt
  Precedes-nil ((k, v) ∷ l) = (tt, Precedes-nil l)

  -- The entries of a map, written into an empty one, are the map.
  pub insert_all-nil : (l : List (K × V)) → IsAscending l → insert_all l [] ≡ l
  insert_all-nil l a = insert_all-append l [] a (Precedes-nil l)

  -- `insert(make_pair(k, v))`: an old value stays.
  unfoldable pub insert_new : K → V → List (K × V) → List (K × V)
  unfolding find insert
  insert_new k v m = elim (find k m) [ none ↦ insert k v m | some w ↦ m ]

  find_above :
      (m : List (K × V)) (k : K) → All (λ e. o.order e.0 k ≡ Ordering.lt) m → find k m ≡ none
  unfolding find
  find_above [] k a = refl
  find_above ((j, w) ∷ m) k a = ground (arith, o.order_flip_lt j k a.0, find_above m k a.1)

  pub insert_new_last :
      (m : List (K × V)) (k : K) (v : V)
      → All (λ e. o.order e.0 k ≡ Ordering.lt) m
      → insert_new k v m ≡ m ++ ((k, v) ∷ [])
  unfolding insert_new
  insert_new_last m k v a = ground (arith, find_above m k a, insert_last m k v a)

  pub find_here : (k : K) (v : V) (m : List (K × V)) → find k ((k, v) ∷ m) ≡ some v
  unfolding find
  find_here k v m = ground (arith, o.order_refl k)

  -- The keys of the rest of an ascending map are not the first one.
  pub find_later :
      (k j : K) (v : V) (m : List (K × V))
      → o.order j k ≡ Ordering.lt
      → find k ((j, v) ∷ m) ≡ find k m
  unfolding find
  find_later k j v m h = ground (arith, o.order_flip_lt j k h)

  -- Each entry of an ascending map is found in it.
  abbrev pub AreIn : List (K × V) → List (K × V) → Type 0
  AreIn l m = All (λ e. find e.0 m ≡ some e.1) l

  AreIn-later :
      (l m : List (K × V)) (k : K) (v : V) → IsBelow k l → AreIn l m → AreIn l ((k, v) ∷ m)
  AreIn-later [] m k v b a = tt
  AreIn-later ((j, w) ∷ l) m k v b a = (find_later j k v m b.0 ∙ a.0, AreIn-later l m k v b.1 a.1)

  pub IsAscending-AreIn : (m : List (K × V)) → IsAscending m → AreIn m m
  IsAscending-AreIn [] a = tt
  IsAscending-AreIn ((k, v) ∷ m) a =
      (find_here k v m, AreIn-later m m k v a.0 (IsAscending-AreIn m a.1))

  -- What holds of the entries of a map and of a new one holds after the insertion.
  pub insert-All :
      (P : K × V → Type 0) (k : K) (v : V) (m : List (K × V))
      → P (k, v)
      → All P m
      → All P (insert k v m)
  unfolding insert
  insert-All P k v [] p a = (p, tt)
  insert-All P k v ((j, w) ∷ m) p a = elim (Ordering-cases (o.order k j)) [
    | inl less ↦ subst (All P) (sym (insert_lt k j v w m less)) (p, a)
    | inr (inl same) ↦
        subst (All P) (sym (insert_eq k j v w m same))
          (subst (λ i. P (i, v)) (o.eq_of_order k j same) p, a.1)
    | inr (inr more) ↦
        subst (All P) (sym (insert_gt k j v w m more)) (a.0, insert-All P k v m p a.1)
  ]

  pub insert_new-All :
      (P : K × V → Type 0) (k : K) (v : V) (m : List (K × V))
      → P (k, v)
      → All P m
      → All P (insert_new k v m)
  unfolding insert_new
  insert_new-All P k v m p a =
      elim (find k m) as (λ x. All P (elim x [ none ↦ insert k v m | some w ↦ m ])) [
        | none ↦ insert-All P k v m p a
        | some w ↦ a
      ]
