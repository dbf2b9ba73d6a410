-- ===== src/ClientLogin/Session.antt =====
-- The session that a client keeps for its next login, as a stream and as a file
-- (cli_common/login_apollo.cpp). The ciphers and the numbers of the host are the library's.
use apollolib.Base.{
  ℕ, ◌+◌, Bool, true, false, ◌||◌, Option, none, some, [], ◌++◌, ◌==◌, ltb, if◌then◌else◌, length,
  take, drop,
}
use apollolib.Base.Text.{Text}
use apollolib.LoginToken.{NetLib, LoginTokenInfo, to_buf}
use apollolib.GameTables.Files.{Reading, done, refused, Reader, ◌>>=◌}

-- `memcpy` of numbers, nd_TEAencrypt, MD5Crypt16, MD5cmp, nd_rsa_write_key and nd_rsa_read_key, for a
-- type K of symmetric and one P of public keys.
pub record CryptLib (K P : Type 0) : Type 0 where
  pub int_bytes : ℕ → Text
  pub int_of : Text → ℕ
  pub tea_encrypt : K → Text → Text
  pub md5_crypt16 : Text → Text
  pub md5_cmp : Text → Text → Bool
  pub rsa_write_key : P → ℕ → Option Text
  pub rsa_read_key : Text → Option P

-- `login_session_load`; `session_data` has the bytes of `session_buf` that are in use.
pub record LoginSessionLoad (P : Type 0) : Type 0 where
  pub load_acc_index : ℕ
  pub session_data : Text
  pub keymd5 : Text
  pub srv_key : P

-- The sizes of `session_buf` and of the buffers for keys: the writer's and a file's, and a stream's.
abbrev pub session_limit : ℕ
session_limit = 1024

abbrev pub file_key_limit : ℕ
file_key_limit = 4096

abbrev pub stream_key_limit : ℕ
stream_key_limit = 8192

-- `READ_FROMFILE` of a stream: a length behind its end is refused.
unfoldable pub read_stream : ℕ → Reader Text
read_stream n s = if ltb (length s) n then refused else done (take n s) (drop n s)

-- `READ_FROMFILE` of a file: `fread` of no bytes gives 0 too, which is taken as an error.
unfoldable pub read_file : ℕ → Reader Text
read_file n s = if n == 0 || ltb (length s) n then refused else done (take n s) (drop n s)

-- `WRITE_TOFILE` to a file that has room for some bytes, after what was written before.
unfoldable pub write_file : ℕ → Bool × Text → Text → Bool × Text
write_file room file x =
    if file.0
    then if length x == 0 || ltb room (length file.1 + length x)
      then (false, file.1)
      else (true, file.1 ++ x)
    else file

-- A check that ends the reading with -1.
unfoldable pub refuse_when : {A : Type 0} → Bool → Reader A → Reader A
refuse_when b body s = if b then refused else body s

module _ {K P : Type 0} (net : NetLib K) (lib : CryptLib K P) where
  -- The bytes of the token behind the cipher.
  unfoldable pub encrypted : LoginTokenInfo K → Option Text
  encrypted t = elim (to_buf net t 4096) [
    | none ↦ none
    | some b ↦ some (lib.tea_encrypt t.sym_key b)
  ]

  -- `session_to_stream`, which does not look at the size of the buffer for the stream.
  unfoldable pub stream_key : P → Text → Option Text
  stream_key key front = elim (lib.rsa_write_key key file_key_limit) [
    | none ↦ none
    | some k ↦ some (front ++ (lib.int_bytes (length k) ++ k))
  ]

  unfoldable pub stream_front : LoginTokenInfo K → Text → Text → Text
  stream_front t keymd5 buf =
      lib.md5_crypt16 buf
      ++ (lib.int_bytes t.acc_index ++ (lib.int_bytes (length buf) ++ (buf ++ keymd5)))

  unfoldable pub session_to_stream : P → LoginTokenInfo K → Text → Option Text
  session_to_stream key t keymd5 = elim (encrypted t) [
    | none ↦ none
    | some buf ↦ stream_key key (stream_front t keymd5 buf)
  ]

  -- The answer to a public key that was read is the answer of all.
  unfoldable pub with_key : ℕ → Text → Text → Text → Reader (LoginSessionLoad P)
  with_key acc buf keymd5 k s = elim (lib.rsa_read_key k) [
    | none ↦ refused
    | some key ↦
        done (record { load_acc_index = acc; session_data = buf; keymd5 = keymd5; srv_key = key }) s
  ]

  -- The steps that `stream_to_session` and `load_session_info` share: the key behind the session, and all.
  unfoldable pub take_key : (ℕ → Reader Text) → ℕ → ℕ → Text → Reader (LoginSessionLoad P)
  take_key read limit acc buf = read 16 >>= λ keymd5. read 4 >>= λ size.
      refuse_when (ltb limit (lib.int_of size))
        (read (lib.int_of size) >>= λ k. with_key acc buf keymd5 k)

  unfoldable pub take_data : (ℕ → Reader Text) → ℕ → Text → ℕ → ℕ → Reader (LoginSessionLoad P)
  take_data read limit md5 acc size = refuse_when (ltb session_limit size) (
      read size >>= λ buf.
      refuse_when (lib.md5_cmp md5 (lib.md5_crypt16 buf)) (take_key read limit acc buf))

  unfoldable pub take_session : (ℕ → Reader Text) → ℕ → Reader (LoginSessionLoad P)
  take_session read limit = read 16 >>= λ md5. read 4 >>= λ acc.
      read 4 >>= λ size. take_data read limit md5 (lib.int_of acc) (lib.int_of size)

  unfoldable pub stream_to_session : Reader (LoginSessionLoad P)
  stream_to_session = take_session read_stream stream_key_limit

  -- `load_session_info` of a file, if it can be opened.
  unfoldable pub load_session_info : Option Text → Reading (LoginSessionLoad P)
  load_session_info file = elim file [
    | none ↦ refused
    | some s ↦ take_session read_file file_key_limit s
  ]

  -- `save_session_info` to a file with room for some bytes, when it can be opened: whether it answers 0, and
  -- what the file holds then.
  unfoldable pub save_front : ℕ → LoginTokenInfo K → Text → Text → Bool × Text
  save_front room t keymd5 buf =
      write_file room
        (write_file room
          (write_file room
            (write_file room (write_file room (true, []) (lib.md5_crypt16 buf))
              (lib.int_bytes t.acc_index))
            (lib.int_bytes (length buf)))
          buf)
        keymd5

  unfoldable pub save_key : ℕ → P → Bool × Text → Bool × Text
  save_key room key file =
      if file.0
      then elim (lib.rsa_write_key key file_key_limit) [
        | none ↦ (false, file.1)
        | some k ↦ write_file room (write_file room file (lib.int_bytes (length k))) k
      ]
      else file

  unfoldable pub save_session_info : ℕ → P → LoginTokenInfo K → Text → Bool × Text
  save_session_info room key t keymd5 = elim (encrypted t) [
    | none ↦ (false, [])
    | some buf ↦ save_key room key (save_front room t keymd5 buf)
  ]
