-- ===== src/MessageData/Written.antt =====
-- The bytes that `logicDataWrite` puts in a message (game_parser/dbldata2netstream.cpp).
use mathlib.Core.List.{append_assoc, append-nil}
use apollolib.Base.{
  ℕ, ◌%◌, ◌^◌, ◌<◌, ◌≤◌, Bool, true, false, ◌&&◌, [], ◌++◌, ◌≡◌, refl, sym, ap, ◌∙◌, if◌then◌else◌,
  length, All, arith,
}
use apollolib.Base.Text.{Text}
use apollolib.GameTables.Files.{done}
use apollolib.MessageData.{
  MsgLib, LogicData, LogicItems, ot_int8, ot_int16, ot_int, ot_bool, ot_float, ot_string, ot_int64,
  ot_time, ot_var, ot_user_defined, ot_array, ot_org_stream, ot_binary_data, ot_msg_stream,
  ot_attr_data, ot_other, no_items, item, Format, Formats, f_int8, f_int16, f_int, f_bool, f_float,
  f_string, f_int64, f_var, f_user_defined, f_array, f_binary_data, no_formats, member, buf_size,
  text_size, count_items, logic_data_write, write_members, write_elements,
}

-- What the code relies on: a message with room takes the bytes, and each value is read as it was written.
pub record IsMsgLib {F V : Type 0} (lib : MsgLib F V) : Type 0 where
  pub put-append : (out x : Text) → (lib.put out x).0 ≡ true → (lib.put out x).1 ≡ out ++ x
  pub read8-u8 : (v : ℕ) (r : Text) → v < 2 ^ 8 → lib.read8 (lib.u8 v ++ r) ≡ done v r
  pub read16-u16 : (v : ℕ) (r : Text) → v < 2 ^ 16 → lib.read16 (lib.u16 v ++ r) ≡ done v r
  pub read32-u32 : (v : ℕ) (r : Text) → v < 2 ^ 32 → lib.read32 (lib.u32 v ++ r) ≡ done v r
  pub read64-u64 : (v : ℕ) (r : Text) → v < 2 ^ 64 → lib.read64 (lib.u64 v ++ r) ≡ done v r
  pub read_float-float_bytes :
      (v : F) (r : Text) → lib.read_float (lib.float_bytes v ++ r) ≡ done v r
  pub read_var-var_bytes : (v : V) (r : Text) → lib.read_var (lib.var_bytes v ++ r) ≡ done v r
  pub read_text-text_bytes :
      (s r : Text)
      → All (λ c. 0 < c) s
      → length s < 2 ^ 16
      → lib.read_text (lib.text_bytes s ++ r) ≡ (s, r)
  pub read_bin-bin_bytes :
      (s r : Text) → length s < 2 ^ 16 → lib.read_bin (lib.bin_bytes s ++ r) ≡ (s, r)

-- The data have a format, and their values fit in it.
mutual
  pub data Fits {F V : Type 0} : Format → LogicData F V → Type 0 where
    fits_int8 : (v : ℕ) → v < 2 ^ 8 → Fits f_int8 (ot_int8 v)
    fits_int16 : (v : ℕ) → v < 2 ^ 16 → Fits f_int16 (ot_int16 v)
    fits_int : (v : ℕ) → v < 2 ^ 32 → Fits f_int (ot_int v)
    fits_bool : (v : ℕ) → v ≤ 1 → Fits f_bool (ot_bool v)
    fits_float : (v : F) → Fits f_float (ot_float v)
    fits_string :
        (s : Text) → All (λ c. 0 < c) s → length s ≤ text_size → Fits f_string (ot_string s)
    fits_int64 : (v : ℕ) → v < 2 ^ 64 → Fits f_int64 (ot_int64 v)
    fits_var : (v : V) → Fits f_var (ot_var v)
    fits_user :
        (fs : Formats) (l : LogicItems F V)
        → FitAll fs l
        → Fits (f_user_defined fs) (ot_user_defined l)
    fits_array :
        (f : Format) (d : LogicData F V) (l : LogicItems F V)
        → count_items (item d l) < 2 ^ 16
        → FitEach f (item d l)
        → Fits (f_array f) (ot_array (item d l))
    fits_binary : (s : Text) → length s ≤ buf_size → Fits f_binary_data (ot_binary_data s)

  pub data FitAll {F V : Type 0} : Formats → LogicItems F V → Type 0 where
    fit_none : FitAll no_formats no_items
    fit_member :
        (f : Format) (fs : Formats) (d : LogicData F V) (l : LogicItems F V)
        → Fits f d
        → FitAll fs l
        → FitAll (member f fs) (item d l)

  pub data FitEach {F V : Type 0} : Format → LogicItems F V → Type 0 where
    fit_end : (f : Format) → FitEach f no_items
    fit_item :
        (f : Format) (d : LogicData F V) (l : LogicItems F V)
        → Fits f d
        → FitEach f l
        → FitEach f (item d l)

module _ {F V : Type 0} (lib : MsgLib F V) where
  -- The bytes of data in a message.
  unfoldable mutual
    pub bytes_of : LogicData F V → Text
    bytes_of (ot_int8 v) = lib.u8 (v % 2 ^ 8)
    bytes_of (ot_int16 v) = lib.u16 (v % 2 ^ 16)
    bytes_of (ot_int v) = lib.u32 (v % 2 ^ 32)
    bytes_of (ot_bool v) = lib.u8 (v % 2 ^ 8)
    bytes_of (ot_float v) = lib.float_bytes v
    bytes_of (ot_string s) = lib.text_bytes s
    bytes_of (ot_int64 v) = lib.u64 (v % 2 ^ 64)
    bytes_of (ot_time v) = lib.u64 (v % 2 ^ 64)
    bytes_of (ot_var v) = lib.var_bytes v
    bytes_of (ot_user_defined l) = bytes_all l
    bytes_of (ot_array l) = lib.u16 (count_items l % 2 ^ 16) ++ bytes_all l
    bytes_of (ot_org_stream s) = s
    bytes_of (ot_binary_data s) = lib.bin_bytes s
    bytes_of (ot_msg_stream s) = s
    bytes_of (ot_attr_data l) = []
    bytes_of ot_other = []

    pub bytes_all : LogicItems F V → Text
    bytes_all no_items = []
    bytes_all (item d l) = bytes_of d ++ bytes_all l

pub write_rest :
    (first rest : Bool × Text)
    → (if first.0 then rest else first).0 ≡ true
    → (first.0 ≡ true) × (rest.0 ≡ true) × ((if first.0 then rest else first).1 ≡ rest.1)
write_rest (true, x) rest ok = (refl, ok, refl)
write_rest (false, x) rest ok = ground arith

pub write_both : (a b : Bool) → (a && b) ≡ true → (a ≡ true) × (b ≡ true)
write_both true b ok = (refl, ok)
write_both false b ok = ground arith

module _ {F V : Type 0} (lib : MsgLib F V) (laws : IsMsgLib lib) where
  -- The bytes of the first and of the rest stand behind each other.
  pub bytes_behind : (out x y : Text) (a b : Text) → a ≡ out ++ x → b ≡ a ++ y → b ≡ out ++ (x ++ y)
  bytes_behind out x y a b h g = g ∙ ap (λ t. t ++ y) h ∙ append_assoc out x y

  mutual
    unfolding logic_data_write write_members write_elements bytes_of bytes_all

    pub write-bytes_of :
        {f : Format} {d : LogicData F V}
        → Fits f d
        → (out : Text) → (logic_data_write lib d out).0 ≡ true
        → (logic_data_write lib d out).1 ≡ out ++ bytes_of lib d
    write-bytes_of (fits_int8 v h) out ok = laws.put-append out _ ok
    write-bytes_of (fits_int16 v h) out ok = laws.put-append out _ ok
    write-bytes_of (fits_int v h) out ok = laws.put-append out _ ok
    write-bytes_of (fits_bool v h) out ok = laws.put-append out _ ok
    write-bytes_of (fits_float v) out ok = laws.put-append out _ ok
    write-bytes_of (fits_string s g h) out ok = laws.put-append out _ ok
    write-bytes_of (fits_int64 v h) out ok = laws.put-append out _ ok
    write-bytes_of (fits_var v) out ok = laws.put-append out _ ok
    write-bytes_of (fits_user fs l h) out ok = members-bytes_all h out ok
    write-bytes_of (fits_array f d l n h) out ok =
        let both = write_both _ _ ok in
        bytes_behind out _ _ _ _ (laws.put-append out _ both.0) (elements-bytes_all h _ both.1)
    write-bytes_of (fits_binary s h) out ok = laws.put-append out _ ok

    pub members-bytes_all :
        {fs : Formats} {l : LogicItems F V}
        → FitAll fs l
        → (out : Text) → (write_members lib l out).0 ≡ true
        → (write_members lib l out).1 ≡ out ++ bytes_all lib l
    members-bytes_all fit_none out ok = sym (append-nil out)
    members-bytes_all (fit_member f fs d l h hs) out ok =
        let split = write_rest _ _ ok in
        split.2
        ∙ bytes_behind out _ _ _ _ (write-bytes_of h out split.0) (members-bytes_all hs _ split.1)

    pub elements-bytes_all :
        {f : Format} {l : LogicItems F V}
        → FitEach f l
        → (out : Text) → (write_elements lib l out).0 ≡ true
        → (write_elements lib l out).1 ≡ out ++ bytes_all lib l
    elements-bytes_all (fit_end f) out ok = sym (append-nil out)
    elements-bytes_all (fit_item f d l h hs) out ok =
        let both = write_both _ _ ok in
        bytes_behind out _ _ _ _ (write-bytes_of h out both.0) (elements-bytes_all hs _ both.1)
