-- ===== src/RankMap/Take.antt =====
-- The first nodes of a list (include/rankMap.h).
use apollolib.Base.{ℕ, zero, suc, ◌≤◌, ◌≡◌, refl, ap, List, [], ◌∷◌, ◌++◌, length, arith}
use apollolib.RankMap.{pop_back}

unfoldable pub take {ℓ} : {A : Type ℓ} → ℕ → List A → List A
take zero l = []
take (suc n) [] = []
take (suc n) (x ∷ l) = x ∷ take n l

pub take-take {ℓ} : {A : Type ℓ} (j k : ℕ) (l : List A) → j ≤ k → take j (take k l) ≡ take j l
unfolding take
take-take zero k l le = refl
take-take (suc j) zero l le = absurd (omega arith)
take-take (suc j) (suc k) [] le = refl
take-take (suc j) (suc k) (x ∷ l) le = ap (λ r. x ∷ r) (take-take j k l (omega arith))

pub take_all {ℓ} : {A : Type ℓ} (k : ℕ) (l : List A) → length l ≤ k → take k l ≡ l
unfolding take
take_all zero [] le = refl
take_all zero (x ∷ l) le = absurd (omega arith)
take_all (suc k) [] le = refl
take_all (suc k) (x ∷ l) le = ap (λ r. x ∷ r) (take_all k l (omega arith))

pub pop_back-take {ℓ} : {A : Type ℓ} (k : ℕ) (l : List A) → length l ≡ suc k → pop_back l ≡ take k l
unfolding pop_back take
pop_back-take k [] e = absurd (omega arith)
pop_back-take zero (x ∷ []) e = refl
pop_back-take (suc k) (x ∷ []) e = absurd (omega arith)
pop_back-take zero (x ∷ (y ∷ l)) e = absurd (omega arith)
pop_back-take (suc k) (x ∷ (y ∷ l)) e = ap (λ r. x ∷ r) (pop_back-take k (y ∷ l) (omega arith))

pub take_front {ℓ} :
    {A : Type ℓ} (k : ℕ) (y : A) (l : List A) → take k (y ∷ take k l) ≡ take k (y ∷ l)
unfolding take
take_front zero y l = refl
take_front (suc k) y l = ap (λ t. y ∷ t) (take-take k (suc k) l (omega arith))

pub take_append {ℓ} : {A : Type ℓ} (l r : List A) → take (length l) (l ++ r) ≡ l
unfolding take
take_append [] r = refl
take_append (x ∷ l) r = ap (λ t. x ∷ t) (take_append l r)
