-- ===== src/UserData/Refusals.antt =====
-- The ways in which `FromStream` ends (srv_common/userAddtionData.cpp).
use mathlib.Core.List.{append_assoc}
use apollolib.Base.{
  ℕ, zero, suc, ◌+◌, ◌%◌, ◌^◌, ◌<◌, ◌≤◌, Bool, ◌++◌, ◌≡◌, ◌≢◌, refl, ap, ◌∙◌, arith, ◌⊎◌, inl, inr,
  Option-cases, length, drop, length-append, length-drop,
}
use apollolib.Base.Text.{Text}
use apollolib.Base.Keys.{text_key}
use apollolib.Base.Maps.{insert}
use apollolib.UserData.Nodes.{AdditionDataNode, DataMap, make_node}
use apollolib.UserData.Names.{c_str, parse_name, print_name}
use apollolib.UserData.Stream.{
  ValueLib, IsValueLib, NameRead, name_overrun, name_read, name_refused, failed, out_of_fuel,
  written, read_string, from_loop, from_stream, print_entry,
}
use apollolib.UserData.RoundTrip.{print_entry-written}

NameRead-cases :
    (r : NameRead)
    → (r ≡ name_refused)
      ⊎ ((r ≡ name_overrun) ⊎ ((text : Text) × (len : ℕ) × (r ≡ name_read text len)))
NameRead-cases name_refused = inl refl
NameRead-cases name_overrun = inr (inl refl)
NameRead-cases (name_read text len) = inr (inr (text, len, refl))

module _ {V : Type 0} (lib : ValueLib V) where
  name_read-len :
      (order : ℕ) (p text : Text) (len : ℕ) → read_string lib order p ≡ name_read text len → 2 ≤ len
  unfolding read_string
  name_read-len order p text len h = ground arith

  from_loop-ne :
      (order fuel : ℕ) (p : Text) (n : ℕ) (m : DataMap V)
      → length p < fuel
      → from_loop lib fuel order p n m ≢ out_of_fuel
  unfolding from_loop
  from_loop-ne order zero p n m h = absurd (omega arith)
  from_loop-ne order (suc fuel) p n m h = elim (NameRead-cases (read_string lib order p)) [
    | inl e ↦ ground arith
    | inr (inl e) ↦ ground arith
    | inr (inr (text, len, e)) ↦ elim (Option-cases (lib.read_stream order (drop len p))) [
      | inl e' ↦ ground arith
      | inr (r, e') ↦
          let name = parse_name (c_str text) in
          ground (
            arith,
            name_read-len order p text len e,
            length-drop len p,
            length-drop r.0 (drop len p),
            from_loop-ne order fuel (drop r.0 (drop len p)) (n + len + r.0)
                (insert name.0 (make_node name.1 r.1) m),
          )
    ]
  ]

  -- The loop of `FromStream` ends on every stream, whatever the library's readers answer: the
  -- fuel, one more than the size of the stream, is never used up.
  pub from_stream_ends :
      (order : ℕ) (p : Text) (m : DataMap V) → from_stream lib order p m ≢ out_of_fuel
  unfolding from_stream
  from_stream_ends order p m = from_loop-ne order (suc (length p)) p 0 m (omega arith)

  read_string-long :
      (laws : IsValueLib lib) (order : ℕ) (text rest : Text)
      → 254 ≤ length text
      → length text < 2 ^ 16
      → read_string lib order (lib.write16 order (length text) ++ (text ++ rest)) ≡ name_refused
  unfolding read_string
  read_string-long laws order text rest long short =
      let w2 = lib.write16 order (length text) in
      ground (
        arith,
        laws.length-write16 order (length text),
        laws.read16-write16 order (length text) (text ++ rest) short,
        length-append w2 (text ++ rest),
      )

  long_stream :
      (laws : IsValueLib lib) (order : ℕ) (text rest : Text) (m : DataMap V)
      → 254 ≤ length text
      → length text < 2 ^ 16
      → from_stream lib order (lib.write16 order (length text) ++ (text ++ rest)) m ≡ failed m
  unfolding from_stream from_loop
  long_stream laws order text rest m long short =
      let w2 = lib.write16 order (length text) in
      ground (
        arith,
        read_string-long laws order text rest long short,
        laws.length-write16 order (length text),
        length-append w2 (text ++ rest),
      )

  -- An entry whose printed name has 254 bytes or more, but fewer than 2 ^ 16, is written by
  -- `ToStream` and refused by `FromStream`, with whatever follows it: the map stays as it was.
  pub long_name_refused :
      (laws : IsValueLib lib) (order : ℕ) (t : Bool) (size : ℕ) (name : Text)
      (node : AdditionDataNode V) (w r : Text) (m : DataMap V)
      → 254 ≤ length (print_name t name node.type_name)
      → length (print_name t name node.type_name) < 2 ^ 16
      → print_entry lib order t size name node ≡ written w
      → from_stream lib order (w ++ r) m ≡ failed m
  long_name_refused laws order t size name node w r m long short h =
      let text = print_name t name node.type_name in
      let (left, vw, wrote, form) = print_entry-written lib order t size name node w h in
      let small : length text % 2 ^ 16 ≡ length text = omega arith in
      let head = lib.write16 order (length text) in
      let whole : w ++ r ≡ head ++ (text ++ (vw ++ r)) =
        ap (λ l. l ++ r) (form ∙ ap (λ k. lib.write16 order k ++ (text ++ vw)) small)
        ∙ append_assoc head (text ++ vw) r
        ∙ ap (λ l. head ++ l) (append_assoc text vw r) in
      ap (λ l. from_stream lib order l m) whole ∙ long_stream laws order text (vw ++ r) m long short
