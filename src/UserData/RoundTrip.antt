-- ===== src/UserData/RoundTrip.antt =====
-- `FromStream` after `ToStream` (srv_common/userAddtionData.cpp).
use mathlib.Core.Path.{ap₂}
use mathlib.Core.List.{append_assoc}
use apollolib.Base.{
  ℕ, zero, suc, ◌+◌, ◌-◌, ◌%◌, ◌^◌, ◌<◌, ◌≤◌, Bool, true, false, Option, none, some, [], ◌∷◌, ◌++◌,
  ◌≡◌, refl, sym, ap, subst, ◌∙◌, arith, ltb, if◌then◌else◌, length, take, drop, length-append,
  take_append, drop_append, All, Bool-cases, Option-cases, inl, inr,
}
use apollolib.Base.Text.{Text}
use apollolib.Base.Keys.{text_key}
use apollolib.Base.Maps.{insert, insert_all, insert_all-nil, IsAscending, IsBelow}
use apollolib.UserData.Nodes.{AdditionDataNode, DataMap, make_node}
use apollolib.UserData.Names.{
  c_str, c_str_self, parse_name, print_name, print_name-IsText, IsText, IsPlain, kept_type,
  parse_name-print_name,
}
use apollolib.UserData.Stream.{
  ValueLib, IsValueLib, name_read, finished, Written, written, refused, cut, read_string, from_loop,
  from_stream, print_entry, and_then, prepend, to_stream,
}

and_then-written :
    (e : Written) (k : Text → Written) (w : Text)
    → and_then e k ≡ written w
    → (w1 : Text) × (e ≡ written w1) × (k w1 ≡ written w)
unfolding and_then
and_then-written (written w1) k w h = (w1, refl, h)
and_then-written refused k w h = cc
and_then-written cut k w h = cc

prepend-written :
    (w1 : Text) (e : Written) (w : Text)
    → prepend w1 e ≡ written w
    → (r : Text) × (e ≡ written r) × (w ≡ w1 ++ r)
unfolding prepend
prepend-written w1 (written r) w h = (r, refl, cc)
prepend-written w1 refused w h = cc
prepend-written w1 cut w h = cc

-- The name can be read again: no `$` in it, and no more than 253 bytes with the type.
abbrev pub IsStorable : {V : Type 0} → Bool → Text × AdditionDataNode V → Type 0
IsStorable with_type e =
    IsPlain e.0 × IsText e.1.type_name × (length (print_name with_type e.0 e.1.type_name) < 254)

module _ {V : Type 0} (lib : ValueLib V) where
  -- The part of a map that a stream keeps: the valid values, and the types if asked for.
  unfoldable pub kept : Bool → DataMap V → DataMap V
  kept with_type [] = []
  kept with_type ((name, node) ∷ m) =
      if lib.check_valid node.value
      then (name, make_node (kept_type with_type node.type_name) node.value) ∷ kept with_type m
      else kept with_type m

  pub kept_valid :
      (t : Bool) (name : Text) (node : AdditionDataNode V) (m : DataMap V)
      → lib.check_valid node.value ≡ true
      → kept t ((name, node) ∷ m)
        ≡ (name, make_node (kept_type t node.type_name) node.value) ∷ kept t m
  unfolding kept
  kept_valid t name node m h = ground arith

  pub kept_invalid :
      (t : Bool) (name : Text) (node : AdditionDataNode V) (m : DataMap V)
      → lib.check_valid node.value ≡ false
      → kept t ((name, node) ∷ m) ≡ kept t m
  unfolding kept
  kept_invalid t name node m h = ground arith

  kept-IsBelow : (t : Bool) (k : Text) (m : DataMap V) → IsBelow k m → IsBelow k (kept t m)
  unfolding kept
  kept-IsBelow t k [] b = tt
  kept-IsBelow t k ((name, node) ∷ m) b = elim (Bool-cases (lib.check_valid node.value)) [
    | inl good ↦
        subst (IsBelow k) (sym (kept_valid t name node m good)) (b.0, kept-IsBelow t k m b.1)
    | inr bad ↦ subst (IsBelow k) (sym (kept_invalid t name node m bad)) (kept-IsBelow t k m b.1)
  ]

  pub kept-IsAscending : (t : Bool) (m : DataMap V) → IsAscending m → IsAscending (kept t m)
  unfolding kept
  kept-IsAscending t [] a = tt
  kept-IsAscending t ((name, node) ∷ m) a = elim (Bool-cases (lib.check_valid node.value)) [
    | inl good ↦
        subst IsAscending (sym (kept_valid t name node m good))
          (kept-IsBelow t name m a.0, kept-IsAscending t m a.1)
    | inr bad ↦ subst IsAscending (sym (kept_invalid t name node m bad)) (kept-IsAscending t m a.1)
  ]

  print_entry-refused :
      (order : ℕ) (t : Bool) (size : ℕ) (name : Text) (node : AdditionDataNode V) (w : Text)
      → lib.write_stream order node.value (size - 2 - length (print_name t name node.type_name))
        ≡ none
      → print_entry lib order t size name node ≡ written w
      → ⊥
  unfolding print_entry
  print_entry-refused order t size name node w e h = ground arith

  pub print_entry-written :
      (order : ℕ) (with_type : Bool) (size : ℕ) (name : Text) (node : AdditionDataNode V) (w : Text)
      → print_entry lib order with_type size name node ≡ written w
      → let text = print_name with_type name node.type_name in
        (left : ℕ) × (vw : Text) × (lib.write_stream order node.value left ≡ some vw)
        × (w ≡ lib.write16 order (length text % 2 ^ 16) ++ (text ++ vw))
  unfolding print_entry
  print_entry-written order t size name node w h =
      elim (Option-cases (
        lib.write_stream order node.value (size - 2 - length (print_name t name node.type_name)))) [
          | inl e ↦ absurd (print_entry-refused order t size name node w e h)
          | inr (vw, e) ↦
              (size - 2 - length (print_name t name node.type_name), vw, e, ground arith)
        ]

module _ {V : Type 0} (lib : ValueLib V) (laws : IsValueLib lib) (order : ℕ) where
  read_string-written :
      (text rest : Text)
      → length text < 254
      → read_string lib order (lib.write16 order (length text) ++ (text ++ rest))
        ≡ name_read text (2 + length text)
  unfolding read_string
  read_string-written text rest h =
      let w2 = lib.write16 order (length text) in
      let len2 : length w2 ≡ 2 = laws.length-write16 order (length text) in
      let num : lib.read16 order (w2 ++ (text ++ rest)) ≡ length text =
        laws.read16-write16 order (length text) (text ++ rest) (omega arith) in
      let long : length (w2 ++ (text ++ rest)) ≡ 2 + (length text + length rest) =
        omega (arith, length-append w2 (text ++ rest), length-append text rest) in
      let behind : drop 2 (w2 ++ (text ++ rest)) ≡ text ++ rest =
        subst (λ k. drop k (w2 ++ (text ++ rest)) ≡ text ++ rest) len2
          (drop_append w2 (text ++ rest)) in
      let taken : take (length text) (drop 2 (w2 ++ (text ++ rest))) ≡ text =
        ap (take (length text)) behind ∙ take_append text rest in
      ground (arith)

  drop_name :
      (text rest : Text)
      → drop (2 + length text) (lib.write16 order (length text) ++ (text ++ rest)) ≡ rest
  drop_name text rest =
      let w2 = lib.write16 order (length text) in
      let size : length (w2 ++ text) ≡ 2 + length text =
        omega (arith, length-append w2 text, laws.length-write16 order (length text)) in
      ap (drop (2 + length text)) (sym (append_assoc w2 text rest))
      ∙ subst (λ k. drop k ((w2 ++ text) ++ rest) ≡ rest) size (drop_append (w2 ++ text) rest)

  from_loop_step :
      (text vw r : Text) (v : V) (fuel n : ℕ) (m : DataMap V)
      → length text < 254
      → lib.read_stream order (vw ++ r) ≡ some (length vw, v)
      → let name = parse_name (c_str text) in
        from_loop lib (suc fuel) order (lib.write16 order (length text) ++ (text ++ (vw ++ r))) n m
        ≡ from_loop lib fuel order r
            (n + (2 + length text) + length vw)
            (insert name.0 (make_node name.1 v) m)
  unfolding from_loop
  from_loop_step text vw r v fuel n m short reads =
      let p = lib.write16 order (length text) ++ (text ++ (vw ++ r)) in
      let some_bytes : ltb 0 (length p) ≡ true = ground (
        arith,
        length-append (lib.write16 order (length text)) (text ++ (vw ++ r)),
        laws.length-write16 order (length text),
      ) in
      ground (
        arith,
        some_bytes,
        read_string-written text (vw ++ r) short,
        drop_name text (vw ++ r),
        drop_append vw r,
        reads,
      )

  to_stream_invalid :
      (t : Bool) (size : ℕ) (name : Text) (node : AdditionDataNode V) (m : DataMap V)
      → lib.check_valid node.value ≡ false
      → to_stream lib order t size ((name, node) ∷ m) ≡ to_stream lib order t size m
  unfolding to_stream
  to_stream_invalid t size name node m h = ground arith

  to_stream_valid :
      (t : Bool) (size : ℕ) (name : Text) (node : AdditionDataNode V) (m : DataMap V)
      → lib.check_valid node.value ≡ true
      → to_stream lib order t size ((name, node) ∷ m)
        ≡ and_then
            (print_entry lib order t size name node)
            (λ w. prepend w (to_stream lib order t (size - length w) m))
  unfolding to_stream
  to_stream_valid t size name node m h = ground arith

  -- One entry is read as it was written, whatever follows it.
  from_loop_entry :
      (t : Bool) (size fuel n : ℕ) (name : Text) (node : AdditionDataNode V) (w1 r : Text)
      (acc : DataMap V)
      → IsStorable t (name, node)
      → print_entry lib order t size name node ≡ written w1
      → (2 ≤ length w1)
        × (from_loop lib (suc fuel) order (w1 ++ r) n acc
            ≡ from_loop lib fuel order r
                (n + length w1)
                (insert name (make_node (kept_type t node.type_name) node.value) acc))
  from_loop_entry t size fuel n name node w1 r acc (plain, typed, short) h =
      let text = print_name t name node.type_name in
      let (left, vw, wrote, form) = print_entry-written lib order t size name node w1 h in
      let small : length text % 2 ^ 16 ≡ length text = omega arith in
      let head = lib.write16 order (length text) in
      let form' : w1 ≡ head ++ (text ++ vw) =
        form ∙ ap (λ k. lib.write16 order k ++ (text ++ vw)) small in
      let whole : w1 ++ r ≡ head ++ (text ++ (vw ++ r)) =
        ap (λ l. l ++ r) form'
        ∙ append_assoc head (text ++ vw) r
        ∙ ap (λ l. head ++ l) (append_assoc text vw r) in
      let size1 : length w1 ≡ 2 + length text + length vw = omega (
        arith,
        ap length form',
        length-append head (text ++ vw),
        length-append text vw,
        laws.length-write16 order (length text),
      ) in
      let parsed : parse_name (c_str text) ≡ (name, kept_type t node.type_name) =
        ap parse_name (c_str_self text (print_name-IsText t name node.type_name plain typed))
        ∙ parse_name-print_name t name node.type_name plain in
      let count : n + (2 + length text) + length vw ≡ n + length w1 = omega arith in
      (
        omega arith,
        ap (λ l. from_loop lib (suc fuel) order l n acc) whole
            ∙ from_loop_step text vw r node.value fuel n acc short
                (laws.read-write order left node.value vw r wrote)
            ∙ ap₂
                (λ k (e : Text × Option Text).
                  from_loop lib fuel order r k (insert e.0 (make_node e.1 node.value) acc))
                count parsed,
      )

  pub from_loop-to_stream :
      (t : Bool) (m : DataMap V) (size fuel n : ℕ) (w : Text) (acc : DataMap V)
      → All (IsStorable t) m
      → length w < fuel
      → to_stream lib order t size m ≡ written w
      → from_loop lib fuel order w n acc ≡ finished (n + length w) (insert_all (kept lib t m) acc)
  unfolding to_stream from_loop kept
  from_loop-to_stream t m size zero n w acc s f h = absurd (omega arith)
  from_loop-to_stream t [] size (suc fuel) n w acc s f h =
      let none_left : w ≡ [] = cc in
      subst (λ l. from_loop lib (suc fuel) order l n acc ≡ finished (n + length l) acc)
        (sym none_left) (ap (λ k. finished k acc) (omega arith))
  from_loop-to_stream t ((name, node) ∷ m) size (suc fuel) n w acc s f h =
      elim (Bool-cases (lib.check_valid node.value)) [
        | inr bad ↦
            from_loop-to_stream t m size (suc fuel) n w acc s.1 f
              (sym (to_stream_invalid t size name node m bad) ∙ h)
            ∙ ap (λ l. finished (n + length w) (insert_all l acc))
                (sym (kept_invalid lib t name node m bad))
        | inl good ↦
            let (w1, wrote, rest) =
              and_then-written (print_entry lib order t size name node) _ w
                (sym (to_stream_valid t size name node m good) ∙ h) in
            let (r, after, whole) = prepend-written w1 _ w rest in
            let entry = from_loop_entry t size fuel n name node w1 r acc s.0 wrote in
            let size_of : length w ≡ length w1 + length r =
              omega (arith, ap length whole, length-append w1 r) in
            let read =
              from_loop-to_stream t m (size - length w1) fuel (n + length w1) r
                (insert name (make_node (kept_type t node.type_name) node.value) acc) s.1
                (omega (arith, entry.0)) after in
            ap (λ l. from_loop lib (suc fuel) order l n acc) whole
            ∙ entry.1
            ∙ read
            ∙ ap₂ (λ k l. finished k (insert_all l acc)) (omega arith)
                (sym (kept_valid lib t name node m good))
      ]

  -- Let the library read each number and value as it wrote them. For an ascending map whose names
  -- have no `$` and no NUL, whose types have no NUL, and whose printed names have fewer than 254
  -- bytes: if `ToStream` gives a stream, then `FromStream` on an empty map reads all of it and
  -- finishes with the entries whose values are valid, the types kept if they were asked for.
  pub from_stream-to_stream :
      (t : Bool) (size : ℕ) (m : DataMap V) (w : Text)
      → IsAscending m
      → All (IsStorable t) m
      → to_stream lib order t size m ≡ written w
      → from_stream lib order w [] ≡ finished (length w) (kept lib t m)
  unfolding from_stream
  from_stream-to_stream t size m w a s h =
      from_loop-to_stream t m size (suc (length w)) 0 w [] s (omega arith) h
      ∙ ap₂ finished (omega arith) (insert_all-nil (kept lib t m) (kept-IsAscending lib t m a))
