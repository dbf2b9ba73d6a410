-- ===== src/MessageData/RoundTrip.antt =====
-- What `logicDataWrite` puts in a message is read again by its format (game_parser/dbldata2netstream.cpp).
use mathlib.Core.List.{append_assoc}
use apollolib.Base.{
  ℕ, suc, ◌%◌, ◌^◌, ◌<◌, ◌≤◌, true, ◌++◌, ◌≡◌, refl, ap, ◌∙◌, ◌==◌, if◌then◌else◌, length, drop,
  drop_append, arith,
}
use apollolib.Base.Text.{Text}
use apollolib.GameTables.Files.{done, Reader, ◌>>=◌, give}
use apollolib.GameTables.Reload.{bind_done}
use apollolib.MessageData.{
  MsgLib, LogicData, LogicItems, ot_int8, ot_int16, ot_int, ot_bool, ot_string, ot_int64,
  ot_binary_data, item, Format, Formats, f_array, member, buf_size, text_size, count_items,
  logic_data_write, into_buf, read_elements, array_of, logic_data_read, read_members,
}
use apollolib.MessageData.Written.{
  IsMsgLib, Fits, FitAll, FitEach, fits_int8, fits_int16, fits_int, fits_bool, fits_float,
  fits_string, fits_int64, fits_var, fits_user, fits_array, fits_binary, fit_none, fit_member,
  fit_end, fit_item, bytes_of, bytes_all, write-bytes_of,
}

pub mod8 : (v : ℕ) → v < 2 ^ 8 → v % 2 ^ 8 ≡ v
mod8 v h = omega arith

pub mod16 : (v : ℕ) → v < 2 ^ 16 → v % 2 ^ 16 ≡ v
mod16 v h = omega arith

pub mod32 : (v : ℕ) → v < 2 ^ 32 → v % 2 ^ 32 ≡ v
mod32 v h = omega arith

pub mod64 : (v : ℕ) → v < 2 ^ 64 → v % 2 ^ 64 ≡ v
mod64 v h = omega arith

pub flag_value : (v : ℕ) → v ≤ 1 → (if v == 0 then 0 else 1) ≡ v
flag_value v h = ground arith

module _ {F V : Type 0} (lib : MsgLib F V) (laws : IsMsgLib lib) where
  -- A value that was written modulo its size is read as it was.
  pub read_value :
      {A : Type 0} (read : Reader A) (bytes : ℕ → Text) (make : A → LogicData F V) (w v : ℕ)
      {r : Text} {a : A}
      → w ≡ v
      → read (bytes v ++ r) ≡ done a r
      → (read >>= λ x. give (make x)) (bytes w ++ r) ≡ done (make a) r
  unfolding give
  read_value read bytes make w v {r} {a} e h =
      bind_done read _ _ (ap (λ x. read (bytes x ++ r)) e ∙ h)

  pub into_buf-done :
      (room : ℕ) (make : Text → LogicData F V) (p : Text × Text) (s r : Text)
      → p ≡ (s, r)
      → length s ≤ room
      → into_buf lib room make p ≡ done (make s) r
  unfolding into_buf
  into_buf-done room make p s r e h =
      let here : into_buf lib room make (s, r) ≡ done (make s) r = ground arith in
      ap (λ x. into_buf lib room make x) e ∙ here

  mutual
    unfolding logic_data_read read_members read_elements bytes_of bytes_all give array_of
        count_items

    pub read-bytes_of :
        {f : Format} {d : LogicData F V}
        → Fits f d
        → (r : Text) → logic_data_read lib f (bytes_of lib d ++ r) ≡ done d r
    read-bytes_of (fits_int8 v h) r =
        read_value lib.read8 lib.u8 ot_int8 _ v (mod8 v h) (laws.read8-u8 v r h)
    read-bytes_of (fits_int16 v h) r =
        read_value lib.read16 lib.u16 ot_int16 _ v (mod16 v h) (laws.read16-u16 v r h)
    read-bytes_of (fits_int v h) r =
        read_value lib.read32 lib.u32 ot_int _ v (mod32 v h) (laws.read32-u32 v r h)
    read-bytes_of (fits_bool v h) r =
        let small : v < 2 ^ 8 = omega arith in
        read_value lib.read8 lib.u8 (λ x. ot_bool (if x == 0 then 0 else 1)) _ v (mod8 v small)
          (laws.read8-u8 v r small)
        ∙ ap (λ x. done (ot_bool x) r) (flag_value v h)
    read-bytes_of (fits_float v) r = bind_done lib.read_float _ _ (laws.read_float-float_bytes v r)
    read-bytes_of (fits_string s g h) r =
        into_buf-done text_size ot_string _ s r (laws.read_text-text_bytes s r g (omega arith)) h
    read-bytes_of (fits_int64 v h) r =
        read_value lib.read64 lib.u64 ot_int64 _ v (mod64 v h) (laws.read64-u64 v r h)
    read-bytes_of (fits_var v) r = bind_done lib.read_var _ _ (laws.read_var-var_bytes v r)
    read-bytes_of (fits_user fs l h) r =
        bind_done (read_members lib fs) _ _ (members_read-bytes_all h r)
    read-bytes_of (fits_array f d l n h) r =
        ap (λ t. logic_data_read lib (f_array f) t)
          (append_assoc (lib.u16 (count_items (item d l) % 2 ^ 16)) (bytes_all lib (item d l)) r)
        ∙ bind_done lib.read16 _ _ (
            ap (λ x. lib.read16 (lib.u16 x ++ (bytes_all lib (item d l) ++ r))) (mod16 _ n)
            ∙ laws.read16-u16 _ _ n)
        ∙ bind_done (read_elements lib (count_items (item d l)) (logic_data_read lib f)) _ _
            (elements_read-bytes_all h r)
    read-bytes_of (fits_binary s h) r =
        into_buf-done buf_size ot_binary_data _ s r (laws.read_bin-bin_bytes s r (omega arith)) h

    pub members_read-bytes_all :
        {fs : Formats} {l : LogicItems F V}
        → FitAll fs l
        → (r : Text) → read_members lib fs (bytes_all lib l ++ r) ≡ done l r
    members_read-bytes_all fit_none r = refl
    members_read-bytes_all (fit_member f fs d l h hs) r =
        ap (λ t. read_members lib (member f fs) t)
          (append_assoc (bytes_of lib d) (bytes_all lib l) r)
        ∙ bind_done (logic_data_read lib f) _ _ (read-bytes_of h (bytes_all lib l ++ r))
        ∙ bind_done (read_members lib fs) _ _ (members_read-bytes_all hs r)

    pub elements_read-bytes_all :
        {f : Format} {l : LogicItems F V}
        → FitEach f l
        → (r : Text)
        → read_elements lib (count_items l) (logic_data_read lib f) (bytes_all lib l ++ r)
          ≡ done l r
    elements_read-bytes_all (fit_end f) r = refl
    elements_read-bytes_all (fit_item f d l h hs) r =
        ap (λ t. read_elements lib (suc (count_items l)) (logic_data_read lib f) t)
          (append_assoc (bytes_of lib d) (bytes_all lib l) r)
        ∙ bind_done (logic_data_read lib f) _ _ (read-bytes_of h (bytes_all lib l ++ r))
        ∙ bind_done (read_elements lib (count_items l) (logic_data_read lib f)) _ _
            (elements_read-bytes_all hs r)

  -- Let the library take the bytes of a write that succeeds and read each value as it wrote it.
  -- Data whose values, texts and blocks fit in their types and in the buffer of the reader, whose
  -- arrays have an element, and that hold no times, attributes or raw streams: when they were
  -- written behind what a message holds and `logicDataWrite` succeeded, `logicDataRead` by their
  -- format gives the same data from there and leaves what follows in the message.
  pub logic_data_read-logic_data_write :
      (f : Format) (d : LogicData F V) (out r : Text)
      → Fits f d
      → (logic_data_write lib d out).0 ≡ true
      → logic_data_read lib f (drop (length out) (logic_data_write lib d out).1 ++ r) ≡ done d r
  logic_data_read-logic_data_write f d out r h ok =
      ap (λ t. logic_data_read lib f (drop (length out) t ++ r)) (write-bytes_of lib laws h out ok)
      ∙ ap (λ t. logic_data_read lib f (t ++ r)) (drop_append out (bytes_of lib d))
      ∙ read-bytes_of h r
