-- ===== src/MessageData.antt =====
-- game_parser/dbldata2netstream.cpp: game data in network messages. The numbers and texts of a
-- message are the library's, a parameter; a message that is read is what is left of its bytes.
use apollolib.Base.{
  ℕ, zero, suc, ◌+◌, ◌%◌, ◌^◌, ◌<◌, Bool, true, false, ◌&&◌, Option, none, some, List, [], ◌∷◌,
  ◌++◌, ◌≡◌, ◌==◌, ltb, if◌then◌else◌, length,
}
use apollolib.Base.Text.{Text}
pub mod Written
mod RoundTrip
pub mod Tests
use apollolib.GameTables.Files.{Reading, done, refused, fault, Reader, ◌>>=◌, give}

-- `NDOStreamMsg` and `NDIStreamMsg`, for a type of floats and one of `NDVarType`. `put` adds bytes to
-- a message, or leaves it and tells that it has no room.
pub record MsgLib (F V : Type 0) : Type 0 where
  pub put : Text → Text → Bool × Text
  pub u8 : ℕ → Text
  pub u16 : ℕ → Text
  pub u32 : ℕ → Text
  pub u64 : ℕ → Text
  pub float_bytes : F → Text
  pub var_bytes : V → Text
  pub text_bytes : Text → Text
  pub bin_bytes : Text → Text
  pub read8 : Reader ℕ
  pub read16 : Reader ℕ
  pub read32 : Reader ℕ
  pub read64 : Reader ℕ
  pub read_float : Reader F
  pub read_var : Reader V
  pub read_text : Text → Text × Text
  pub read_bin : Text → Text × Text

-- `LogicDataObj` by its type
mutual
  pub data LogicData (F V : Type 0) : Type 0 where
    ot_int8 : ℕ → LogicData F V
    ot_int16 : ℕ → LogicData F V
    ot_int : ℕ → LogicData F V
    ot_bool : ℕ → LogicData F V
    ot_float : F → LogicData F V
    ot_string : Text → LogicData F V
    ot_int64 : ℕ → LogicData F V
    ot_time : ℕ → LogicData F V
    ot_var : V → LogicData F V
    ot_user_defined : LogicItems F V → LogicData F V
    ot_array : LogicItems F V → LogicData F V
    ot_org_stream : Text → LogicData F V
    ot_binary_data : Text → LogicData F V
    ot_msg_stream : Text → LogicData F V
    ot_attr_data : List (ℕ × V) → LogicData F V
    ot_other : LogicData F V

  pub data LogicItems (F V : Type 0) : Type 0 where
    no_items : LogicItems F V
    item : LogicData F V → LogicItems F V → LogicItems F V

-- The format that a read is driven by: the type of the data, of its members, and of the first element.
mutual
  pub data Format : Type 0 where
    f_int8 : Format
    f_int16 : Format
    f_int : Format
    f_bool : Format
    f_float : Format
    f_string : Format
    f_int64 : Format
    f_time : Format
    f_var : Format
    f_user_defined : Formats → Format
    f_array : Format → Format
    f_org_stream : Format
    f_binary_data : Format
    f_attr_data : Format
    f_other : Format

  pub data Formats : Type 0 where
    no_formats : Formats
    member : Format → Formats → Formats

-- `buf[4096]`, and the text that it holds with the 0 behind it
abbrev pub buf_size : ℕ
buf_size = 4096

abbrev pub text_size : ℕ
text_size = 4095

unfoldable pub count_items : {F V : Type 0} → LogicItems F V → ℕ
count_items no_items = 0
count_items (item d l) = suc (count_items l)

module _ {F V : Type 0} (lib : MsgLib F V) where
  -- The answers of the writes of attributes are not looked at.
  unfoldable pub write_attrs : List (ℕ × V) → Text → Text
  write_attrs [] out = out
  write_attrs ((aid, val) ∷ l) out =
      write_attrs l (lib.put (lib.put out (lib.u8 aid)).1 (lib.var_bytes val)).1

  unfoldable mutual
    -- `logicDataWrite`: whether it answers 0, and the message.
    pub logic_data_write : LogicData F V → Text → Bool × Text
    logic_data_write (ot_int8 v) out = lib.put out (lib.u8 (v % 2 ^ 8))
    logic_data_write (ot_int16 v) out = lib.put out (lib.u16 (v % 2 ^ 16))
    logic_data_write (ot_int v) out = lib.put out (lib.u32 (v % 2 ^ 32))
    logic_data_write (ot_bool v) out = lib.put out (lib.u8 (v % 2 ^ 8))
    logic_data_write (ot_float v) out = lib.put out (lib.float_bytes v)
    logic_data_write (ot_string s) out = lib.put out (lib.text_bytes s)
    logic_data_write (ot_int64 v) out = lib.put out (lib.u64 (v % 2 ^ 64))
    logic_data_write (ot_time v) out = lib.put out (lib.u64 (v % 2 ^ 64))
    logic_data_write (ot_var v) out = lib.put out (lib.var_bytes v)
    logic_data_write (ot_user_defined l) out = write_members l out
    logic_data_write (ot_array l) out =
        let head = lib.put out (lib.u16 (count_items l % 2 ^ 16)) in
        let rest = write_elements l head.1 in (head.0 && rest.0, rest.1)
    logic_data_write (ot_org_stream s) out = lib.put out s
    logic_data_write (ot_binary_data s) out = lib.put out (lib.bin_bytes s)
    logic_data_write (ot_msg_stream s) out = lib.put out s
    logic_data_write (ot_attr_data l) out =
        (true, write_attrs l (lib.put out (lib.u16 (length l % 2 ^ 16))).1)
    logic_data_write ot_other out = (false, out)

    -- `_writeMsgToUserDef` ends with the first member that fails.
    pub write_members : LogicItems F V → Text → Bool × Text
    write_members no_items out = (true, out)
    write_members (item d l) out =
        let first = logic_data_write d out in
        let rest = write_members l first.1 in if first.0 then rest else first

    -- The elements of an array are all written.
    pub write_elements : LogicItems F V → Text → Bool × Text
    write_elements no_items out = (true, out)
    write_elements (item d l) out =
        let first = logic_data_write d out in
        let rest = write_elements l first.1 in (first.0 && rest.0, rest.1)

  -- A block that is longer than the room for it in `buf` is written behind its end.
  unfoldable pub into_buf : ℕ → (Text → LogicData F V) → Text × Text → Reading (LogicData F V)
  into_buf room make r = if ltb room (length r.0) then fault else done (make r.0) r.1

  unfoldable pub read_elements : ℕ → Reader (LogicData F V) → Reader (LogicItems F V)
  read_elements zero read = give no_items
  read_elements (suc n) read = read >>= λ d. read_elements n read >>= λ l. give (item d l)

  -- The elements of an array that was read; an empty one becomes a structure with a number.
  unfoldable pub array_of : LogicItems F V → LogicData F V
  array_of no_items = ot_user_defined (item (ot_int16 0) no_items)
  array_of (item d l) = ot_array (item d l)

  unfoldable mutual
    -- `logicDataRead` of a format. Times are not read; the count of attributes that are collected is not set.
    pub logic_data_read : Format → Reader (LogicData F V)
    logic_data_read f_int8 = lib.read8 >>= λ v. give (ot_int8 v)
    logic_data_read f_int16 = lib.read16 >>= λ v. give (ot_int16 v)
    logic_data_read f_int = lib.read32 >>= λ v. give (ot_int v)
    logic_data_read f_bool = lib.read8 >>= λ v. give (ot_bool (if v == 0 then 0 else 1))
    logic_data_read f_float = lib.read_float >>= λ v. give (ot_float v)
    logic_data_read f_string = λ s. into_buf text_size ot_string (lib.read_text s)
    logic_data_read f_int64 = lib.read64 >>= λ v. give (ot_int64 v)
    logic_data_read f_time = λ s. refused
    logic_data_read f_var = lib.read_var >>= λ v. give (ot_var v)
    logic_data_read (f_user_defined fs) = read_members fs >>= λ l. give (ot_user_defined l)
    logic_data_read (f_array f) =
        lib.read16 >>= λ n. read_elements n (logic_data_read f) >>= λ l. give (array_of l)
    logic_data_read f_org_stream = λ s. into_buf buf_size ot_org_stream (s, [])
    logic_data_read f_binary_data = λ s. into_buf buf_size ot_binary_data (lib.read_bin s)
    logic_data_read f_attr_data = λ s. fault
    logic_data_read f_other = λ s. refused

    -- `_readMsgToUserDef`
    pub read_members : Formats → Reader (LogicItems F V)
    read_members no_formats = give no_items
    read_members (member f fs) = logic_data_read f >>= λ d. read_members fs >>= λ l. give (item d l)
