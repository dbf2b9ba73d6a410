-- ===== src/Status/Rows.antt =====
-- The states that the rows of `load_stat_info` add (attribute/stat_data.cpp).
use apollolib.Base.{
  ℕ, suc, ◌+◌, ◌-◌, ◌≤◌, ◌<◌, ◌≡◌, sym, ap, ◌∙◌, false, none, some, List, [], ◌∷◌, arith, ◌==◌,
  if◌then◌else◌, length, get_elem?, All, ◌⊎◌, inl, inr, Bool-cases,
}
use apollolib.Base.Text.{Text}
use apollolib.Status.Tables.{OpType, op_val, op_bit, Stat, MainStat, entries}
use apollolib.Status.Loader.{stat_value}
use apollolib.Status.Weight.{IsDistinct, has_key, pow_inj}

-- The kind of a field, when the fields before `fields` are read, the last of them of kind `op`.
abbrev pub kind : ℕ → OpType → List MainStat → ℕ → OpType
kind fields op mains f =
    if suc f == fields
    then op
    else elim (get_elem? mains (f - fields)) [ some m ↦ m.op_type | none ↦ op_val ]

-- What is known of a state that the rows after a point add.
pub record IsRead (names : List Text) (fields : ℕ) (op : OpType) (sub : ℕ) (mains : List MainStat)
    (s : Stat) : Type 0 where
  pub own : ℕ
  pub place : ((suc s.field ≡ fields) × (sub ≤ own)) ⊎ (fields ≤ s.field)
  pub inside : s.field < fields + length mains
  pub value_of : s.value ≡ stat_value (kind fields op mains s.field) own
  pub idle : kind fields op mains s.field ≡ op_val → own ≡ 0 → entries s.forbid_list ≡ []
  pub listed : All (λ g. g < length names) (entries s.forbid_list)

-- A row that goes on with the last field.
IsRead-same :
    (names : List Text) (fields : ℕ) (op : OpType) (sub : ℕ) (mains : List MainStat) (s : Stat)
    → IsRead names fields op (sub + 1) mains s
    → IsRead names fields op sub mains s
IsRead-same names fields op sub mains s r = record {
  own = r.own;
  place = omega (arith, r.place);
  inside = r.inside;
  value_of = r.value_of;
  idle = r.idle;
  listed = r.listed;
}

kind-new :
    (fields : ℕ) (op : OpType) (main : MainStat) (mains : List MainStat) (f : ℕ)
    → fields ≤ f
    → kind (fields + 1) main.op_type mains f ≡ kind fields op (main ∷ mains) f
kind-new fields op main mains f le = elim (Bool-cases (f == fields)) [
  | inl first ↦
      let e : f - fields ≡ 0 = ground arith in
      ground (arith, ap (λ n. get_elem? (main ∷ mains) n) e)
  | inr later ↦
      let e : f - fields ≡ suc (f - (fields + 1)) = ground arith in
      ground (arith, ap (λ n. get_elem? (main ∷ mains) n) e)
]

-- A row that begins a field.
IsRead-new :
    (names : List Text) (fields : ℕ) (op : OpType) (sub : ℕ) (main : MainStat)
    (mains : List MainStat) (s : Stat)
    → IsRead names (fields + 1) main.op_type 1 mains s
    → IsRead names fields op sub (main ∷ mains) s
IsRead-new names fields op sub main mains s r =
    let le : fields ≤ s.field = omega (arith, r.place) in
    let same = kind-new fields op main mains s.field le in
    record {
      own = r.own;
      place = inr le;
      inside = omega (arith, r.inside);
      value_of = r.value_of ∙ ap (λ o. stat_value o r.own) same;
      idle = λ v z. r.idle (same ∙ v) z;
      listed = r.listed;
    }

stat_value_inj : (op : OpType) (j k : ℕ) → stat_value op j ≡ stat_value op k → j ≡ k
unfolding stat_value
stat_value_inj op_val j k e = e
stat_value_inj op_bit j k e = pow_inj j k e

abbrev pub IsLoaded : List Text → ℕ → OpType → ℕ → List MainStat → List Stat → Type 0
IsLoaded names fields op sub mains stats =
    All (IsRead names fields op sub mains) stats × IsDistinct stats

kind_last :
    (fields : ℕ) (op : OpType) (mains : List MainStat) (f : ℕ)
    → suc f ≡ fields
    → kind fields op mains f ≡ op
kind_last fields op mains f e = ground arith

-- A state differs from all that are read after it.
later_differs :
    (names : List Text) (fields : ℕ) (op : OpType) (sub : ℕ) (mains : List MainStat) (s r : Stat)
    → suc s.field ≡ fields
    → s.value ≡ stat_value op sub
    → IsRead names fields op (sub + 1) mains r
    → has_key s.field s.value r ≡ false
later_differs names fields op sub mains s r of_field of_value w =
    elim (Bool-cases (has_key s.field s.value r)) [
      | inr differs ↦ differs
      | inl same ↦
          let f : r.field ≡ s.field = ground arith in
          let v : r.value ≡ s.value = ground arith in
          let k : kind fields op mains r.field ≡ op =
            kind_last fields op mains r.field (omega arith) in
          let values : stat_value op w.own ≡ stat_value op sub =
            sym (ap (λ o. stat_value o w.own) k) ∙ sym w.value_of ∙ v ∙ of_value in
          absurd (omega (arith, w.place, stat_value_inj op w.own sub values))
    ]

pub All-map : {P Q : Stat → Type 0} → ((s : Stat) → P s → Q s) → (l : List Stat) → All P l → All Q l
All-map f [] h = tt
All-map f (s ∷ rest) h = (f s h.0, All-map f rest h.1)

-- One more row before those that are read.
pub IsLoaded-same :
    (names : List Text) (fields : ℕ) (op : OpType) (sub : ℕ) (mains : List MainStat) (s : Stat)
    (stats : List Stat)
    → suc s.field ≡ fields
    → s.value ≡ stat_value op sub
    → 0 < sub
    → All (λ g. g < length names) (entries s.forbid_list)
    → IsLoaded names fields op (sub + 1) mains stats
    → IsLoaded names fields op sub mains (s ∷ stats)
IsLoaded-same names fields op sub mains s stats of_field of_value later listed (reads, distinct) =
    let k = kind_last fields op mains s.field of_field in
    (
      (
        record {
          own = sub;
          place = inl (of_field, omega arith);
          inside = omega arith;
          value_of = of_value ∙ sym (ap (λ o. stat_value o sub) k);
          idle = λ _ z. absurd (omega arith);
          listed = listed;
        },
        All-map (λ r. IsRead-same names fields op sub mains r) stats reads,
      ),
      (
        All-map (λ r. later_differs names fields op sub mains s r of_field of_value) stats reads,
        distinct,
      ),
    )

pub IsLoaded-new :
    (names : List Text) (fields : ℕ) (op : OpType) (sub : ℕ) (main : MainStat)
    (mains : List MainStat) (s : Stat) (stats : List Stat)
    → s.field ≡ fields
    → s.value ≡ stat_value main.op_type 0
    → (main.op_type ≡ op_val → entries s.forbid_list ≡ [])
    → All (λ g. g < length names) (entries s.forbid_list)
    → IsLoaded names (fields + 1) main.op_type 1 mains stats
    → IsLoaded names fields op sub (main ∷ mains) (s ∷ stats)
IsLoaded-new names fields op sub main mains s stats of_field of_value idle listed
      (reads, distinct) =
    let k : kind fields op (main ∷ mains) s.field ≡ main.op_type =
      sym (kind-new fields op main mains s.field (omega arith))
      ∙ kind_last (fields + 1) main.op_type mains s.field (omega arith) in
    (
      (
        record {
          own = 0;
          place = inr (omega arith);
          inside = omega arith;
          value_of = of_value ∙ sym (ap (λ o. stat_value o 0) k);
          idle = λ v _. idle (sym k ∙ v);
          listed = listed;
        },
        All-map (λ r. IsRead-new names fields op sub main mains r) stats reads,
      ),
      (
        All-map
            (λ r. later_differs names (fields + 1) main.op_type 0 mains s r (omega arith) of_value)
            stats reads,
        distinct,
      ),
    )
