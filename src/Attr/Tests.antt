-- ===== src/Attr/Tests.antt =====
-- Runs of the attributes of a role on three attributes of type ℕ: the second is computed from the
-- third, and the third from the first.
use apollolib.Base.{
  ℕ, zero, suc, ◌+◌, ◌-◌, ◌*◌, ◌<◌, ◌≡◌, refl, Bool, true, false, not, Option, none, some, List, [],
  ◌∷◌, arith, ◌==◌, ltb, leb, Array, All, ◌⊎◌, inr,
}
use apollolib.Attr.Desc.{AttrDesc, Helper, get_wa_desc, check_readonly}
use apollolib.Attr.RunSort.{
  all_walked, check_canbe_run, visit, pass_from, pass, passes, parse_run_sort,
}
use apollolib.Attr.Passes.{ready_after, IsUsed}
use apollolib.Attr.Order.{
  IsIndexed, given, IsRunnable, parse_run_sort-IsRunnable, parse_run_sort-ready_after,
}
use apollolib.Attr.Complete.{IsRanked, parse_run_sort_complete}
use apollolib.Attr.Asset.{
  VarOps, Asset, get_val, limit_max, limit_min, set_limited, run_cmd, recalc_one, recalc_all,
  recalc, check_unlimit_max,
}
use apollolib.Attr.Calls.{scaled, set_val, add_val, sub_val}
use apollolib.Attr.Limits.{IsConstant, set_limited-bounded}
use apollolib.Attr.Recalc.{ReadsNeeds, recalc-bounded}
use apollolib.Attr.Refused.{add_val-refused, sub_val-refused, sub_val-covered}

abbrev numbers : VarOps ℕ
numbers = record {
  is_number = λ _. true;
  check_valid = λ _. true;
  ne = λ a b. not (a == b);
  gt = λ a b. ltb b a;
  ge = λ a b. leb b a;
  lt = ltb;
  add = λ a b. a + b;
  sub = λ a b. a - b;
  mul = λ a b. a * b;
  zero_val = 0;
  to_int = λ v. v;
  is_change = λ v. not (v == 0);
  is_scale = λ v. not (v == 1);
}

abbrev row : ℕ → ℕ → List ℕ → List ℕ → AttrDesc ℕ
row id locked needs cmd = record {
  wa_id = id;
  data_type = 0;
  issave = 1;
  issync = 1;
  is_change_by_client = 0;
  iscall_event = 0;
  islog = 0;
  friend_get = 0;
  is_read_only = locked;
  infections = [];
  need_buf = needs;
  name = [];
  real_name = [];
  ismin = 1;
  ismax = 1;
  is_unlimited_max = 0;
  minval = 0;
  maxval = 100;
  unlimit_max = 0;
  cmd_data = cmd;
}

abbrev rows : Array (AttrDesc ℕ)
rows zero = row 0 0 [] []
rows (suc zero) = row 1 0 (2 ∷ []) (2 ∷ [])
rows (suc (suc zero)) = row 2 0 (0 ∷ []) (0 ∷ [])
rows (suc (suc (suc i))) = row 255 0 [] []

abbrev helper : Helper ℕ
helper = record { wa_num = 3; bufs = rows; current_parse = 0; run_sort = 2 ∷ 1 ∷ [] }

-- A formula of one byte is twice the attribute of that number.
abbrev run : List ℕ → (ℕ → ℕ) → Option ℕ
run [] r = none
run (n ∷ rest) r = some (2 * r n)

helper_sort : parse_run_sort helper ≡ some (2 ∷ 1 ∷ [])
unfolding parse_run_sort passes pass pass_from visit check_canbe_run all_walked
helper_sort = refl

helper-IsIndexed : IsIndexed helper
helper-IsIndexed zero lt = inr (record { inside = omega arith; used = refl; same_id = refl })
helper-IsIndexed (suc zero) lt = inr (record { inside = omega arith; used = refl; same_id = refl })
helper-IsIndexed (suc (suc zero)) lt =
    inr (record { inside = omega arith; used = refl; same_id = refl })
helper-IsIndexed (suc (suc (suc i))) lt = absurd (omega arith)

second-IsUsed : IsUsed helper 1
second-IsUsed = record { inside = omega arith; used = refl; same_id = refl }

first-IsUsed : IsUsed helper 0
first-IsUsed = record { inside = omega arith; used = refl; same_id = refl }

third-IsUsed : IsUsed helper 2
third-IsUsed = record { inside = omega arith; used = refl; same_id = refl }

parse_run_sort-IsRunnable_example : IsRunnable helper (given helper) (2 ∷ 1 ∷ [])
parse_run_sort-IsRunnable_example = parse_run_sort-IsRunnable helper helper-IsIndexed helper_sort

parse_run_sort-ready_after_example : ready_after (given helper) (2 ∷ 1 ∷ []) 1 ≡ true
parse_run_sort-ready_after_example =
    parse_run_sort-ready_after helper 1 helper-IsIndexed helper_sort second-IsUsed

abbrev rank : ℕ → ℕ
rank zero = 0
rank (suc zero) = 2
rank (suc (suc i)) = 1

needs_earlier :
    (j : ℕ) → IsUsed helper j → All (λ n. IsUsed helper n × (rank n < rank j)) (rows j).need_buf
needs_earlier zero u = tt
needs_earlier (suc zero) u = ((third-IsUsed, omega arith), tt)
needs_earlier (suc (suc zero)) u = ((first-IsUsed, omega arith), tt)
needs_earlier (suc (suc (suc i))) u = tt

rank-lt : (j : ℕ) → rank j < 3
rank-lt zero = omega arith
rank-lt (suc zero) = omega arith
rank-lt (suc (suc i)) = omega arith

helper-IsRanked : IsRanked helper rank
helper-IsRanked = record { below = λ j u. rank-lt j; earlier = needs_earlier }

parse_run_sort_complete_example :
    (sort : List ℕ) × (parse_run_sort helper ≡ some sort) × IsRunnable helper (given helper) sort
parse_run_sort_complete_example =
    parse_run_sort_complete helper rank helper-IsRanked helper-IsIndexed (omega arith)

rows-IsConstant : (i : ℕ) → IsConstant numbers (rows i)
rows-IsConstant zero = record { above = λ e. omega arith; below = λ e. omega arith }
rows-IsConstant (suc zero) = record { above = λ e. omega arith; below = λ e. omega arith }
rows-IsConstant (suc (suc zero)) = record { above = λ e. omega arith; below = λ e. omega arith }
rows-IsConstant (suc (suc (suc i))) = record { above = λ e. omega arith; below = λ e. omega arith }

run_reads :
    (i : ℕ) (r r' : ℕ → ℕ)
    → All (λ n. r n ≡ r' n) (rows i).need_buf
    → run (rows i).cmd_data r ≡ run (rows i).cmd_data r'
run_reads zero r r' e = refl
run_reads (suc zero) r r' e = rw (e.0) refl
run_reads (suc (suc zero)) r r' e = rw (e.0) refl
run_reads (suc (suc (suc i))) r r' e = refl

run-ReadsNeeds : ReadsNeeds helper run
run-ReadsNeeds = record { reads = run_reads }

abbrev role : Asset ℕ
role = record {
  datas_count = 3;
  datas = λ _. 7;
  enable_recalc = true;
  attr_rate = 1;
  record_change = false;
  changed = [];
  in_affair = false;
  events = [];
}

recalc-bounded_example : (recalc numbers helper run role).datas 1 ≡ 28
unfolding recalc recalc_all recalc_one set_limited limit_max limit_min get_wa_desc run_cmd get_val
recalc-bounded_example =
    recalc-bounded numbers helper run rows-IsConstant run-ReadsNeeds role 1 28 helper-IsIndexed
      helper_sort refl second-IsUsed refl refl

second_desc : get_wa_desc helper 1 ≡ some (rows 1)
unfolding get_wa_desc
second_desc = refl

set_limited-bounded_example :
    (ltb 100 ((set_limited numbers helper 300 1 role).1.datas 1) ≡ false)
    × (ltb ((set_limited numbers helper 300 1 role).1.datas 1) 0 ≡ false)
set_limited-bounded_example =
    set_limited-bounded numbers helper (rows 1) 300 1 role second_desc refl refl refl refl refl

nothing_added : (add_val numbers helper run 9 5 role).1.datas ≡ role.datas
unfolding add_val set_val check_unlimit_max get_wa_desc
nothing_added = add_val-refused numbers helper run 9 5 role refl

-- The base class tells of no error.
abbrev silent : Asset ℕ → Bool
silent a = false

abbrev strict : Asset ℕ → Bool
strict a = true

sub_val-refused_example :
    ((sub_val numbers helper run silent 0 8 role).1.datas ≡ role.datas)
    ⊎ (((set_val numbers helper run 0
            (numbers.sub (get_val numbers 0 role) (scaled numbers helper run 8 role))
            role).0
          ≡ true)
        × (silent (sub_val numbers helper run silent 0 8 role).1 ≡ true)
        × ((sub_val numbers helper run silent 0 8 role).1
            ≡ (set_val numbers helper run 0
                (numbers.sub (get_val numbers 0 role) (scaled numbers helper run 8 role))
                role).1))
unfolding sub_val get_val
sub_val-refused_example = sub_val-refused numbers helper run silent 0 8 role refl

-- A derived class that tells of an error turns the answer to false, and the value has been set.
refused_late : (sub_val numbers helper run strict 0 5 role).0 ≡ false
unfolding sub_val set_val get_val check_readonly
refused_late = refl

sub_val-covered_example :
    (ltb (get_val numbers 0 role) 5 ≡ false)
    × ◌≡◌ {A = Bool} true true
    × (check_readonly helper 0 ≡ false)
    × (0 < 3)
unfolding sub_val set_val get_val check_readonly
sub_val-covered_example = sub_val-covered numbers helper run silent 0 5 role refl
