-- ===== src/Status/Reasons.antt =====
-- The reasons that `GetUnoperateReason` gives (attribute/stat_machine.cpp).
use apollolib.Base.{ℕ, ◌≡◌, refl, Option, some, [], ◌∷◌, get_elem?, inl, inr, Option-cases}
use apollolib.Base.Text.{Text}
use apollolib.Status.Tables.{IntList, Operate, Tables, cells, get_operate_index}
use apollolib.Status.Machine.{Machine}
use apollolib.Status.Forbids.{
  get_forbid_reason, first_unoperate_reason, reason_cells, get_unoperate_reason,
}

first_of_one :
    (t : Tables) (p : ℕ) (m : Machine)
    → first_unoperate_reason t (some p ∷ []) m ≡ get_forbid_reason t p m
unfolding first_unoperate_reason
first_of_one t p m = elim (Option-cases (get_forbid_reason t p m)) [
  | inl e ↦ rw (e, first_unoperate_reason) refl
  | inr (name, e) ↦ rw (e, first_unoperate_reason) refl
]

cells_of_one : (l : IntList (Option ℕ)) → l.num ≡ 1 → reason_cells l ≡ some 1 ∷ []
unfolding reason_cells cells
cells_of_one l e = rw (e, reason_cells) refl

-- For an operation whose check list has a single entry, `GetUnoperateReason` gives the reason of
-- forbid entry 1, the number of the entries, whatever entry the list names.
pub reason_of_one :
    (t : Tables) (opname : Text) (i : ℕ) (o : Operate) (m : Machine)
    → get_operate_index t opname ≡ some i
    → get_elem? t.operates i ≡ some o
    → o.check_list.num ≡ 1
    → get_unoperate_reason t opname m ≡ get_forbid_reason t 1 m
unfolding get_unoperate_reason
reason_of_one t opname i o m found row one =
    rw (found, row, get_unoperate_reason) (rw (cells_of_one o.check_list one) (first_of_one t 1 m))
