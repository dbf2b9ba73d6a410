-- ===== src/LoginToken.antt =====
-- include/loginToken.h: the token of a login and the key of a transferred session, as bytes. The
-- numbers in network order and the ciphers' keys are the library's, a parameter.
use apollolib.Base.{
  ℕ, ◌+◌, ◌-◌, ◌%◌, ◌^◌, ◌<◌, ◌≤◌, Option, none, some, List, [], ◌∷◌, ◌++◌, ◌≡◌, ltb, leb,
  if◌then◌else◌, length, take, drop,
}
use apollolib.Base.Text.{Text}
mod RoundTrip
pub mod Tests

-- `nd_long_to_netstream` and the like, and `nd_teaKeyToNetorder` with its inverse.
pub record NetLib (K : Type 0) : Type 0 where
  pub long_bytes : ℕ → Text
  pub short_bytes : ℕ → Text
  pub longlong_bytes : ℕ → Text
  pub key_bytes : K → Text
  pub long_of : Text → ℕ
  pub short_of : Text → ℕ
  pub longlong_of : Text → ℕ
  pub key_of : Text → K

-- `login_token_info`
pub record LoginTokenInfo (K : Type 0) : Type 0 where
  pub acc_index : ℕ
  pub session_key : ℕ
  pub reserved : ℕ
  pub create_tm : ℕ
  pub sym_key : K
  pub udid : Text

-- `transfer_session_key`; `session_buf` has the `size` bytes that `toBuf` takes from it and from what
-- stands behind it in memory.
pub record TransferSessionKey (K : Type 0) : Type 0 where
  pub transfer_acc_index : ℕ
  pub transfer_udid : Text
  pub new_key : K
  pub session_buf : Text

-- What `fromBuf` answers: 0 or -1, the value with the size that was read, a read behind the end of
-- the bytes, or a write behind `session_buf`.
pub data Taken (A : Type 0) : Type 0 where
  not_taken : Taken A
  taken : A → ℕ → Taken A
  over_read : Taken A
  over_write : Taken A

-- What `toBuf` of a transfer answers: -1, the bytes, or a read behind the end of `session_buf`.
pub data Put : Type 0 where
  not_put : Put
  put : Text → Put
  over_buf : Put

-- `sizeof(login_token_info)`, that of `transfer_session_key` without its buffer, the size of a
-- device id, and that of `session_buf`
abbrev pub token_size : ℕ
token_size = 96

abbrev pub transfer_size : ℕ
transfer_size = 88

abbrev pub udid_size : ℕ
udid_size = 64

abbrev pub session_size : ℕ
session_size = 1024

module _ {K : Type 0} (lib : NetLib K) where
  -- `login_token_info::toBuf`
  unfoldable pub to_buf : LoginTokenInfo K → ℕ → Option Text
  to_buf t bufsize =
      if leb bufsize token_size
      then none
      else some (
          lib.long_bytes t.acc_index
          ++ (lib.short_bytes t.session_key
              ++ (lib.short_bytes t.reserved
                  ++ (lib.longlong_bytes t.create_tm ++ (lib.key_bytes t.sym_key ++ t.udid)))))

  -- The fields in the bytes of a token.
  unfoldable pub take_token : Text → LoginTokenInfo K
  take_token buf =
      let s1 = drop 4 buf in
      let s2 = drop 2 s1 in
      let s3 = drop 2 s2 in
      let s4 = drop 8 s3 in
      record {
        acc_index = lib.long_of (take 4 buf);
        session_key = lib.short_of (take 2 s1);
        reserved = lib.short_of (take 2 s2);
        create_tm = lib.longlong_of (take 8 s3);
        sym_key = lib.key_of (take 16 s4);
        udid = take udid_size (drop 16 s4);
      }

  -- `login_token_info::fromBuf`: it asks for more than 16 bytes and reads all of the token.
  unfoldable pub from_buf : Text → ℕ → Taken (LoginTokenInfo K)
  from_buf buf bufsize =
      if leb bufsize 16
      then not_taken
      else if ltb (length buf) token_size
      then over_read
      else taken (take_token buf) token_size

  -- `transfer_session_key::toBuf`: it does not look at the size of `session_buf`.
  unfoldable pub transfer_to_buf : TransferSessionKey K → ℕ → Put
  transfer_to_buf t bufsize =
      if ltb bufsize (transfer_size + length t.session_buf)
      then not_put
      else if ltb session_size (length t.session_buf)
      then over_buf
      else put (
          lib.long_bytes t.transfer_acc_index
          ++ (t.transfer_udid
              ++ (lib.key_bytes t.new_key
                  ++ (lib.long_bytes (length t.session_buf) ++ t.session_buf))))

  -- The size of the session data, and all fields.
  unfoldable pub transfer_len : Text → ℕ
  transfer_len buf = lib.long_of (take 4 (drop 16 (drop udid_size (drop 4 buf))))

  unfoldable pub take_transfer : Text → TransferSessionKey K
  take_transfer buf =
      let s1 = drop 4 buf in
      let s2 = drop udid_size s1 in
      record {
        transfer_acc_index = lib.long_of (take 4 buf);
        transfer_udid = take udid_size s1;
        new_key = lib.key_of (take 16 s2);
        session_buf = take (transfer_len buf) (drop 4 (drop 16 s2));
      }

  -- `transfer_session_key::fromBuf` on all bytes of a buffer
  unfoldable pub transfer_from_buf : Text → Taken (TransferSessionKey K)
  transfer_from_buf buf =
      if ltb (length buf) transfer_size
      then not_taken
      else let size = transfer_len buf in
        if ltb (length buf - transfer_size) size
        then not_taken
        else if ltb session_size size
        then over_write
        else taken (take_transfer buf) (transfer_size + size)
