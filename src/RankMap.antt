-- ===== src/RankMap.antt =====
-- `ApoRankMap` (include/rankMap.h): a list of the best values, best first. The type of the
-- ranks and its `>=` are parameters.
use apollolib.Base.{
  ℕ, zero, suc, ◌+◌, Bool, true, false, Option, none, some, List, [], ◌∷◌, ◌++◌, ltb, if◌then◌else◌,
  length,
}
mod Take
pub mod TopRanks
mod Tests

-- `rankNode`
pub record RankNode (I V : Type 0) : Type 0 where
  pub first : I
  pub second : V

-- `pop_back`
unfoldable pub pop_back {ℓ} : {A : Type ℓ} → List A → List A
pop_back [] = []
pop_back (x ∷ []) = []
pop_back (x ∷ (y ∷ l)) = x ∷ pop_back (y ∷ l)

module _ {I V : Type 0} (ge : I → I → Bool) where
  -- The loop of `trytoAdd`: the node goes before the first one that it is not below; `none` when
  -- there is no such node.
  unfoldable pub insert_before : RankNode I V → List (RankNode I V) → Option (List (RankNode I V))
  insert_before x [] = none
  insert_before x (y ∷ l) =
      let rest = insert_before x l in
      if ge x.first y.first
      then some (x ∷ (y ∷ l))
      else elim rest [ none ↦ none | some l' ↦ some (y ∷ l') ]

  unfoldable pub tryto_add : ℕ → RankNode I V → List (RankNode I V) → Bool × List (RankNode I V)
  tryto_add capacity x [] = (true, x ∷ [])
  tryto_add capacity x (y ∷ l) = elim (insert_before x (y ∷ l)) [
    | some l' ↦ (true, if ltb capacity (length l') then pop_back l' else l')
    | none ↦
        if ltb (length (y ∷ l)) capacity
        then (true, (y ∷ l) ++ (x ∷ []))
        else (false, if ltb capacity (length (y ∷ l)) then pop_back (y ∷ l) else y ∷ l)
  ]
