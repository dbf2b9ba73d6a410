-- ===== src/RankMap/Tests.antt =====
-- Runs of the rank map with room for two nodes, ranked by numbers.
use apollolib.Base.{ℕ, ◌≤◌, ◌≡◌, refl, Bool, true, false, List, [], ◌∷◌, leb, length, arith}
use apollolib.RankMap.{RankNode, tryto_add}
use apollolib.RankMap.Take.{take}
use apollolib.RankMap.TopRanks.{
  insert, insert_all, add_all, add_all-take, IsDescending, tryto_add-IsDescending,
}

abbrev ge : ℕ → ℕ → Bool
ge a b = leb b a

abbrev node : ℕ → RankNode ℕ ℕ
node n = record { first = n; second = n }

abbrev runs : List (RankNode ℕ ℕ)
runs = node 4 ∷ node 9 ∷ node 6 ∷ node 2 ∷ []

add_all-take_example : add_all ge 2 runs [] ≡ node 9 ∷ node 6 ∷ []
unfolding take insert insert_all
add_all-take_example = add_all-take ge 2 runs (omega arith)

ge_total : (a b : ℕ) → ge a b ≡ false → ge b a ≡ true
ge_total a b e = ground arith

ge_trans : (a b c : ℕ) → ge a b ≡ true → ge b c ≡ true → ge a c ≡ true
ge_trans a b c e f = ground arith

tryto_add-IsDescending_example :
    IsDescending ge (tryto_add ge 2 (node 6) (node 9 ∷ node 4 ∷ [])).1
    × (length (tryto_add ge 2 (node 6) (node 9 ∷ node 4 ∷ [])).1 ≤ 2)
tryto_add-IsDescending_example =
    tryto_add-IsDescending ge ge_total ge_trans 2 (node 6) (node 9 ∷ node 4 ∷ []) (omega arith)
      (omega arith) ((refl, tt), (tt, tt))
