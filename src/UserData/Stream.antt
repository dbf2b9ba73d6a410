-- ===== src/UserData/Stream.antt =====
-- `FromStream`, `ToStream`, `convert2node` and `Init` (srv_common/userAddtionData.cpp). The streams
-- of numbers and values are the library's, a parameter.
use apollolib.Base.{
  ℕ, zero, suc, ◌+◌, ◌-◌, ◌%◌, ◌^◌, ◌<◌, Bool, true, false, ◌&&◌, Option, none, some, [], ◌∷◌, ◌++◌,
  ◌≡◌, ltb, leb, if◌then◌else◌, length, take, drop,
}
use apollolib.Base.Text.{Text}
use apollolib.Base.Keys.{text_key}
use apollolib.Base.Maps.{insert}
use apollolib.UserData.Nodes.{AdditionDataNode, DataMap, make_node}
use apollolib.UserData.Names.{c_str, parse_name, print_name, is_typed}

-- `lp_write_stream`, `lp_read_stream` and the class `LogicDataObj` of the library. The first
-- argument is the order of the bytes; `write_stream` is given the size that is left.
pub record ValueLib (V : Type 0) : Type 0 where
  pub write16 : ℕ → ℕ → Text
  pub read16 : ℕ → Text → ℕ
  pub write_stream : ℕ → V → ℕ → Option Text
  pub read_stream : ℕ → Text → Option (ℕ × V)
  pub check_valid : V → Bool
  pub binary : Text → V
  pub get_binary : V → Option Text

-- What `_read_string` answers: -1, a read behind the end of the data, or the name and its size.
pub data NameRead : Type 0 where
  name_refused : NameRead
  name_overrun : NameRead
  name_read : (name : Text) (len : ℕ) → NameRead

-- What `FromStream` leaves: the size that it has read and the map, the map after a refusal, or
-- nothing after a read behind the end.
pub data Parsed (V : Type 0) : Type 0 where
  finished : (len : ℕ) → DataMap V → Parsed V
  failed : DataMap V → Parsed V
  overrun : Parsed V
  out_of_fuel : Parsed V

-- What `ToStream` leaves: a stream, -1, or a stream whose name was cut by `snprintf`.
pub data Written : Type 0 where
  written : Text → Written
  refused : Written
  cut : Written

-- What `convert2node` leaves.
pub data Converted (V : Type 0) : Type 0 where
  converted : V → Converted V
  not_converted : Converted V
  spoiled : Converted V

-- The code goes on after a stream only.
unfoldable pub and_then : Written → (Text → Written) → Written
and_then (written w) k = k w
and_then refused k = refused
and_then cut k = cut

unfoldable pub prepend : Text → Written → Written
prepend w (written r) = written (w ++ r)
prepend w refused = refused
prepend w cut = cut

abbrev pub name_size : ℕ
name_size = 256

module _ {V : Type 0} (lib : ValueLib V) where
  -- `_read_string` into a buffer of `name_size` bytes
  unfoldable pub read_string : ℕ → Text → NameRead
  read_string order p =
      if ltb (length p) 2
      then name_overrun
      else let size16 = lib.read16 order p in
        if leb (name_size - 2) size16
        then name_refused
        else if ltb (length p) (2 + size16)
        then name_overrun
        else name_read (take size16 (drop 2 p)) (2 + size16)

  -- The loop of `FromStream`; `n` is what has been read.
  unfoldable pub from_loop : ℕ → ℕ → Text → ℕ → DataMap V → Parsed V
  from_loop zero order p n m = out_of_fuel
  from_loop (suc fuel) order p n m = elim (ltb 0 (length p)) [
    | false ↦ finished n m
    | true ↦ elim (read_string order p) [
      | name_refused ↦ failed m
      | name_overrun ↦ overrun
      | name_read text len ↦ elim (lib.read_stream order (drop len p)) [
        | none ↦ failed m
        | some (val_len, val) ↦
            let name = parse_name (c_str text) in
            from_loop fuel order (drop val_len (drop len p)) (n + len + val_len)
              (insert name.0 (make_node name.1 val) m)
      ]
    ]
  ]

  unfoldable pub from_stream : ℕ → Text → DataMap V → Parsed V
  unfolding from_loop
  from_stream order p m = from_loop (suc (length p)) order p 0 m

  -- One entry of `ToStream`, when `size` bytes are left.
  unfoldable pub print_entry : ℕ → Bool → ℕ → Text → AdditionDataNode V → Written
  unfolding is_typed print_name
  print_entry order with_type size name node =
      let text = print_name with_type name node.type_name in
      if leb size (length name + 8)
      then refused
      else if is_typed with_type node.type_name && leb (size - 2) (length text)
      then cut
      else elim (lib.write_stream order node.value (size - 2 - length text)) [
        | none ↦ refused
        | some w ↦ written (lib.write16 order (length text % 2 ^ 16) ++ (text ++ w))
      ]

  unfoldable pub to_stream : ℕ → Bool → ℕ → DataMap V → Written
  to_stream order with_type size [] = written []
  to_stream order with_type size ((name, node) ∷ m) = elim (lib.check_valid node.value) [
    | false ↦ to_stream order with_type size m
    | true ↦
        and_then (print_entry order with_type size name node)
          λ w. prepend w (to_stream order with_type (size - length w) m)
  ]

  -- The answer -1 and an empty stream are no data. `with_type` is not handed on.
  unfoldable pub convert2node : ℕ → Bool → DataMap V → Converted V
  unfolding to_stream
  convert2node order with_type m = elim (to_stream order true 0x10000 m) [
    | written [] ↦ not_converted
    | written (c ∷ w) ↦ converted (lib.binary (c ∷ w))
    | refused ↦ not_converted
    | cut ↦ spoiled
  ]

  -- `Init`: false for a value that is not binary, and true whatever `FromStream` answers.
  unfoldable pub init : ℕ → V → DataMap V → Bool × Parsed V
  unfolding from_stream
  init order val m = elim (lib.get_binary val) [
    | none ↦ (false, finished 0 m)
    | some bytes ↦ (true, from_stream order bytes m)
  ]

  -- What the code relies on: a value that was written, whatever follows it, is read again.
  pub record IsValueLib : Type 0 where
    pub length-write16 : (order n : ℕ) → length (lib.write16 order n) ≡ 2
    pub read16-write16 :
        (order n : ℕ) (r : Text) → n < 2 ^ 16 → lib.read16 order (lib.write16 order n ++ r) ≡ n
    pub read-write :
        (order size : ℕ) (v : V) (w r : Text)
        → lib.write_stream order v size ≡ some w
        → lib.read_stream order (w ++ r) ≡ some (length w, v)
    pub get_binary-binary : (w : Text) → lib.get_binary (lib.binary w) ≡ some w
