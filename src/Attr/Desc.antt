-- ===== src/Attr/Desc.antt =====
-- `RoleAttrHelper` and its rows (attribute/roleattr_help.h and roleattr_help.cpp). The type of
-- the values, `NDVarType`, is a parameter.
use apollolib.Base.{
  ℕ, zero, suc, ◌+◌, ◌%◌, Bool, true, false, not, Option, none, some, List, [], ◌∷◌, ◌++◌, ◌==◌,
  ◌||◌, ltb, leb, if◌then◌else◌, Array, set,
}
use apollolib.Base.Text.{Text, text_eq}

-- `ROLE_ATTR_CAPACITY`
abbrev pub role_attr_capacity : ℕ
role_attr_capacity = 200

-- `INVALID_ATTR_ID`
abbrev pub invalid_attr_id : ℕ
invalid_attr_id = 255

-- `role_attr_description`. The arrays `infections` and `need_buf` are lists with their numbers,
-- and `cmd_data` the bytes of the formula.
pub record AttrDesc {ℓ} (V : Type ℓ) : Type ℓ where
  pub wa_id : ℕ
  pub data_type : ℕ
  pub issave : ℕ
  pub issync : ℕ
  pub is_change_by_client : ℕ
  pub iscall_event : ℕ
  pub islog : ℕ
  pub friend_get : ℕ
  pub is_read_only : ℕ
  pub infections : List ℕ
  pub need_buf : List ℕ
  pub name : Text
  pub real_name : Text
  -- 0 for no limit, 1 for the value, 2 for the attribute of that number
  pub ismin : ℕ
  pub ismax : ℕ
  pub is_unlimited_max : ℕ
  pub minval : V
  pub maxval : V
  pub unlimit_max : V
  pub cmd_data : List ℕ

-- The rows of `RoleAttrHelper`, `m_wahelper_bufs` up to `m_wa_num`, and its run order.
pub record Helper {ℓ} (V : Type ℓ) : Type ℓ where
  pub wa_num : ℕ
  pub bufs : Array (AttrDesc V)
  pub current_parse : ℕ
  pub run_sort : List ℕ

module _ {ℓ} {V : Type ℓ} where
  abbrev pub is_unused : AttrDesc V → Bool
  is_unused d = d.wa_id == invalid_attr_id

  -- `get_wa_desc`
  unfoldable pub get_wa_desc : Helper V → ℕ → Option (AttrDesc V)
  get_wa_desc h wa_id =
      if leb h.wa_num wa_id || is_unused (h.bufs wa_id) then none else some (h.bufs wa_id)

  -- `ndstricmp` is a function of a library: `icmp_eq` is its answer 0.
  module _ (icmp_eq : Text → Text → Bool) where
    -- The loop of `GetID` over `n` rows from `i` on.
    unfoldable pub id_from : Helper V → Text → ℕ → ℕ → ℕ
    id_from h name i zero = invalid_attr_id
    id_from h name i (suc n) =
        let d = h.bufs i in
        let rest = id_from h name (i + 1) n in
        if is_unused d
        then rest
        else (if text_eq name d.name
            then d.wa_id
            else (if icmp_eq name d.real_name then d.wa_id else rest))

    unfoldable pub get_id : Helper V → Text → ℕ
    get_id h [] = invalid_attr_id
    get_id h (c ∷ name) = id_from h (c ∷ name) 0 h.wa_num

  unfoldable pub get_name : Helper V → ℕ → Option Text
  get_name h wa_id =
      if leb h.wa_num wa_id || is_unused (h.bufs wa_id) then none else some (h.bufs wa_id).name

  unfoldable pub get_real_name : Helper V → ℕ → Option Text
  get_real_name h wa_id =
      if leb h.wa_num wa_id || is_unused (h.bufs wa_id) then none else some (h.bufs wa_id).real_name

  -- The loop of `place_param_name`: the number of the attribute that takes the place of a name,
  -- and the rows with the relation of that attribute to the one that is parsed.
  unfoldable pub place_from : Helper V → Text → ℕ → ℕ → Option (ℕ × Helper V)
  place_from h input i zero = none
  place_from h input i (suc n) =
      let d = h.bufs i in
      let p = h.current_parse in
      let rest = place_from h input (i + 1) n in
      let infecting = set h.bufs i (record d { infections = d.infections ++ (p ∷ []) }) in
      let parsed = infecting p in
      if is_unused d
      then rest
      else (if text_eq input d.name
          then some (
            d.wa_id,
            if p == i then h else record h {
              bufs = set infecting p (record parsed { need_buf = parsed.need_buf ++ (i ∷ []) });
            },
          )
          else rest)

  unfoldable pub place_param_name : Text → Helper V → Option (ℕ × Helper V)
  place_param_name input h = place_from h input 0 h.wa_num

  -- The tests of a flag, `check_save` and its kin; `(attrid_t)m_wa_num` is a byte.
  abbrev pub check_flag : (AttrDesc V → ℕ) → Bool → Helper V → ℕ → Bool
  check_flag flag unused h wa_id =
      if ltb wa_id (h.wa_num % 256)
      then (if is_unused (h.bufs wa_id) then unused else not (flag (h.bufs wa_id) == 0))
      else false

  unfoldable pub check_save : Helper V → ℕ → Bool
  check_save h wa_id =
      if ltb wa_id role_attr_capacity then true else check_flag (λ d. d.issave) false h wa_id

  unfoldable pub check_log : Helper V → ℕ → Bool
  check_log h wa_id = check_flag (λ d. d.islog) false h wa_id

  unfoldable pub check_readonly : Helper V → ℕ → Bool
  check_readonly h wa_id = check_flag (λ d. d.is_read_only) true h wa_id

  unfoldable pub check_sync : Helper V → ℕ → Bool
  check_sync h wa_id = check_flag (λ d. d.issync) false h wa_id

  unfoldable pub check_client_change : Helper V → ℕ → Bool
  check_client_change h wa_id = check_flag (λ d. d.is_change_by_client) false h wa_id

  unfoldable pub check_gen_event : Helper V → ℕ → Bool
  check_gen_event h wa_id = check_flag (λ d. d.iscall_event) false h wa_id

  unfoldable pub set_readonly : ℕ → Bool → Helper V → Helper V
  set_readonly wa_id flag h =
      let d = h.bufs wa_id in
      let changed = record h {
        bufs = set h.bufs wa_id (record d { is_read_only = if flag then 1 else 0 });
      } in
      if ltb wa_id (h.wa_num % 256) then (if is_unused d then h else changed) else h
