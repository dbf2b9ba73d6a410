-- ===== src/ClientLogin/Tests.antt =====
-- A session that is stored in a stream and in a file.
use apollolib.Base.{
  ℕ, zero, suc, ◌+◌, ◌%◌, ◌≤◌, Bool, true, false, Option, none, some, [], ◌∷◌, ◌++◌, ◌≡◌, refl, ap,
  ◌==◌, ltb, if◌then◌else◌, length, take, drop, arith,
}
use apollolib.Base.Text.{Text}
use apollolib.LoginToken.{to_buf}
use apollolib.LoginToken.Tests.{sixteen, four, big_endian, network, token, token_text}
use apollolib.GameTables.Files.{done, refused}
use apollolib.ClientLogin.Session.{
  CryptLib, LoginSessionLoad, read_stream, read_file, write_file, refuse_when, encrypted,
  stream_key, stream_front, session_to_stream, with_key, take_key, take_data, take_session,
  stream_to_session, load_session_info, save_front, save_key, save_session_info, session_limit,
}
use apollolib.ClientLogin.Stored.{IsCryptLib, stream_to_session-session_to_stream}
use apollolib.ClientLogin.Accepted.{stream_to_session-checked}
use apollolib.ClientLogin.Saved.{saved_file_as_stream}

abbrev shift : ℕ → Text → Text
shift n [] = []
shift n (x ∷ s) = ((x + n) % 256) ∷ shift n s

abbrev sum : Text → ℕ
sum [] = 0
sum (x ∷ s) = x + sum s

abbrev differ : Text → Text → Bool
differ [] [] = false
differ [] (y ∷ t) = true
differ (x ∷ s) [] = true
differ (x ∷ s) (y ∷ t) = if x == y then differ s t else true

abbrev of_flag : Bool → ℕ
of_flag true = 1
of_flag false = 0

abbrev flag_of : Text → Option Bool
flag_of [] = none
flag_of (zero ∷ s) = some false
flag_of (suc n ∷ s) = some true

abbrev cipher : CryptLib Bool Bool
cipher = record {
  int_bytes = four;
  int_of = big_endian 0;
  tea_encrypt = λ k s. shift (of_flag k) s;
  md5_crypt16 = λ s. sixteen (sum s % 256);
  md5_cmp = differ;
  rsa_write_key = λ k n. if ltb n 2 then none else some (of_flag k ∷ (9 ∷ []));
  rsa_read_key = flag_of;
}

differ-same : (s : Text) → differ s s ≡ false
differ-same [] = refl
differ-same (x ∷ s) = let same = differ-same s in ground arith

key_read : (k : Bool) (n : ℕ) (b : Text) → cipher.rsa_write_key k n ≡ some b → flag_of b ≡ some k
key_read true n b h = let e : b ≡ 1 ∷ (9 ∷ []) = ground arith in ap flag_of e
key_read false n b h = let e : b ≡ 0 ∷ (9 ∷ []) = ground arith in ap flag_of e

key_room : (k : Bool) (n : ℕ) (b : Text) → cipher.rsa_write_key k n ≡ some b → length b ≤ n
key_room k n b h = ground arith

cipher-IsCryptLib : IsCryptLib cipher
cipher-IsCryptLib = record {
  int_size = λ n. omega arith;
  int_again = λ n h. omega arith;
  md5_size = λ s. refl;
  md5_same = differ-same;
  key_again = key_read;
  key_fits = key_room;
}

abbrev secret : Text
secret = shift 1 token_text

here_encrypted : encrypted network cipher token ≡ some secret
unfolding encrypted to_buf
here_encrypted = refl

abbrev stored : Text
stored =
    (sixteen (sum secret % 256) ++ (four 70001 ++ (four 96 ++ (secret ++ sixteen 5))))
    ++ (four 2 ++ (1 ∷ (9 ∷ [])))

abbrev session : LoginSessionLoad Bool
session = record {
  load_acc_index = 70001;
  session_data = secret;
  keymd5 = sixteen 5;
  srv_key = true;
}

here_stored : session_to_stream network cipher true token (sixteen 5) ≡ some stored
unfolding session_to_stream stream_key stream_front encrypted to_buf
here_stored = refl

stream_to_session-session_to_stream_example :
    stream_to_session network cipher (stored ++ (3 ∷ [])) ≡ done session (3 ∷ [])
stream_to_session-session_to_stream_example =
    stream_to_session-session_to_stream network cipher cipher-IsCryptLib true token (sixteen 5)
      secret stored (3 ∷ []) (omega arith) refl here_encrypted (omega arith) here_stored

stored_read : stream_to_session network cipher stored ≡ done session []
unfolding stream_to_session take_session take_data take_key with_key read_stream refuse_when
stored_read = refl

stream_to_session-checked_example :
    (length secret ≤ session_limit) × (differ (take 16 stored) (sixteen (sum secret % 256)) ≡ false)
stream_to_session-checked_example = stream_to_session-checked network cipher stored stored_read

file_saved : save_session_info network cipher 500 true token (sixteen 5) ≡ (true, stored)
unfolding save_session_info save_front save_key write_file encrypted to_buf
file_saved = refl

file_loaded : load_session_info network cipher (some stored) ≡ done session []
unfolding load_session_info take_session take_data take_key with_key read_file refuse_when
file_loaded = refl

saved_file_as_stream_example :
    (session_to_stream network cipher true token (sixteen 5) ≡ some stored)
    × (stream_to_session network cipher stored ≡ done session [])
saved_file_as_stream_example =
    saved_file_as_stream network cipher 500 true token (sixteen 5) stored [] session file_saved
      file_loaded

-- A file without room for the key keeps what was written before.
file_full :
    save_session_info network cipher 139 true token (sixteen 5)
    ≡ (false, sixteen (sum secret % 256) ++ (four 70001 ++ (four 96 ++ (secret ++ sixteen 5))))
unfolding save_session_info save_front save_key write_file encrypted to_buf
file_full = refl

-- A stream that was changed is refused.
changed_refused : stream_to_session network cipher (sixteen 1 ++ drop 16 stored) ≡ refused
unfolding stream_to_session take_session take_data take_key with_key read_stream refuse_when
changed_refused = refl
