-- ===== src/ClientLogin/Stored.antt =====
-- What a client stores of its session is what it reads again (cli_common/login_apollo.cpp).
use mathlib.Core.List.{append_assoc}
use apollolib.Base.{
  ℕ, ◌<◌, ◌≤◌, ◌^◌, Bool, false, Option, none, some, ◌++◌, ◌≡◌, refl, sym, ap, ◌∙◌, ltb,
  if◌then◌else◌, length, take_append, drop_append, length-append, arith,
}
use apollolib.Base.Text.{Text}
use apollolib.LoginToken.{NetLib, LoginTokenInfo}
use apollolib.GameTables.Files.{done, refused, Reader, ◌>>=◌}
use apollolib.GameTables.Reload.{bind_done}
use apollolib.ClientLogin.Session.{
  CryptLib, session_limit, file_key_limit, stream_key_limit, read_stream, refuse_when, encrypted,
  stream_key, stream_front, session_to_stream, with_key, take_key, take_data, take_session,
  stream_to_session,
}

-- What the code relies on: numbers and keys are read as they were written, a key fits in its buffer, a
-- checksum has 16 bytes and equals itself, and a number has four.
pub record IsCryptLib {K P : Type 0} (lib : CryptLib K P) : Type 0 where
  pub int_size : (n : ℕ) → length (lib.int_bytes n) ≡ 4
  pub int_again : (n : ℕ) → n < 2 ^ 32 → lib.int_of (lib.int_bytes n) ≡ n
  pub md5_size : (s : Text) → length (lib.md5_crypt16 s) ≡ 16
  pub md5_same : (s : Text) → lib.md5_cmp s s ≡ false
  pub key_again :
      (key : P) (n : ℕ) (k : Text)
      → lib.rsa_write_key key n ≡ some k
      → lib.rsa_read_key k ≡ some key
  pub key_fits : (key : P) (n : ℕ) (k : Text) → lib.rsa_write_key key n ≡ some k → length k ≤ n

pub refuse_when-false :
    {A : Type 0} (b : Bool) (body : Reader A) (s : Text) → b ≡ false → refuse_when b body s ≡ body s
unfolding refuse_when
refuse_when-false b body s h = ap (λ x. if x then refused else body s) h

read_stream-append : (n : ℕ) (x r : Text) → length x ≡ n → read_stream n (x ++ r) ≡ done x r
unfolding read_stream
read_stream-append n x r h =
    ap (λ m. read_stream m (x ++ r)) (sym h)
    ∙ (ground (arith, length-append x r, take_append x r, drop_append x r))

some_of :
    {A B : Type 0} (o : Option A) (f : A → B) (s : B)
    → elim o [ none ↦ none | some k ↦ some (f k) ] ≡ some s
    → (k : A) × (o ≡ some k) × (s ≡ f k)
some_of none f s h = cc (h)
some_of (some k) f s h = (k, refl, cc (h))

-- The parts of a stream in a row.
parts_in_a_row :
    (a b c d e f g r : Text)
    → ((a ++ (b ++ (c ++ (d ++ e)))) ++ (f ++ g)) ++ r
      ≡ a ++ (b ++ (c ++ (d ++ (e ++ (f ++ (g ++ r))))))
parts_in_a_row a b c d e f g r = simp append_assoc

module _ {K P : Type 0} (net : NetLib K) (lib : CryptLib K P) (laws : IsCryptLib lib) where
  take_key-parts :
      (key : P) (acc : ℕ) (buf keymd5 k r : Text)
      → length keymd5 ≡ 16
      → lib.rsa_write_key key file_key_limit ≡ some k
      → take_key net lib read_stream stream_key_limit acc buf
          (keymd5 ++ (lib.int_bytes (length k) ++ (k ++ r)))
        ≡ done
            (record { load_acc_index = acc; session_data = buf; keymd5 = keymd5; srv_key = key })
            r
  unfolding take_key with_key
  take_key-parts key acc buf keymd5 k r h w =
      let fits : length k ≤ 4096 = laws.key_fits key file_key_limit k w in
      let rest = λ (n : ℕ).
        refuse_when (ltb stream_key_limit n)
          (read_stream n >>= λ x. with_key net lib acc buf keymd5 x) (k ++ r) in
      bind_done (read_stream 16) _ _ (read_stream-append 16 keymd5 _ h)
      ∙ bind_done (read_stream 4) _ _ (read_stream-append 4 _ _ (laws.int_size (length k)))
      ∙ ap rest (laws.int_again (length k) (omega arith))
      ∙ refuse_when-false _ _ (k ++ r) (ground arith)
      ∙ bind_done (read_stream (length k)) _ _ (read_stream-append (length k) k r refl)
      ∙ ap
          (λ o. elim o [
            | none ↦ refused
            | some p ↦
                done
                  (record {
                    load_acc_index = acc;
                    session_data = buf;
                    keymd5 = keymd5;
                    srv_key = p;
                  })
                  r
          ])
          (laws.key_again key file_key_limit k w)

  take_data-parts :
      (key : P) (acc : ℕ) (buf keymd5 k r : Text)
      → length buf ≤ session_limit
      → length keymd5 ≡ 16
      → lib.rsa_write_key key file_key_limit ≡ some k
      → take_data net lib read_stream stream_key_limit
          (lib.md5_crypt16 buf)
          acc
          (length buf)
          (buf ++ (keymd5 ++ (lib.int_bytes (length k) ++ (k ++ r))))
        ≡ done
            (record { load_acc_index = acc; session_data = buf; keymd5 = keymd5; srv_key = key })
            r
  unfolding take_data
  take_data-parts key acc buf keymd5 k r g h w =
      refuse_when-false _ _ _ (ground arith)
      ∙ bind_done (read_stream (length buf)) _ _ (read_stream-append (length buf) buf _ refl)
      ∙ refuse_when-false _ _ _ (laws.md5_same (lib.md5_crypt16 buf))
      ∙ take_key-parts key acc buf keymd5 k r h w

  take_session-parts :
      (key : P) (acc : ℕ) (buf keymd5 k r : Text)
      → acc < 2 ^ 32
      → length buf ≤ session_limit
      → length keymd5 ≡ 16
      → lib.rsa_write_key key file_key_limit ≡ some k
      → take_session net lib read_stream stream_key_limit (
          lib.md5_crypt16 buf
          ++ (lib.int_bytes acc
              ++ (lib.int_bytes (length buf)
                  ++ (buf ++ (keymd5 ++ (lib.int_bytes (length k) ++ (k ++ r)))))))
        ≡ done
            (record { load_acc_index = acc; session_data = buf; keymd5 = keymd5; srv_key = key })
            r
  unfolding take_session
  take_session-parts key acc buf keymd5 k r a g h w =
      let body = buf ++ (keymd5 ++ (lib.int_bytes (length k) ++ (k ++ r))) in
      let rest = λ (x n : ℕ).
        take_data net lib read_stream stream_key_limit (lib.md5_crypt16 buf) x n body in
      bind_done (read_stream 16) _ _ (read_stream-append 16 _ _ (laws.md5_size buf))
      ∙ bind_done (read_stream 4) _ _ (read_stream-append 4 _ _ (laws.int_size acc))
      ∙ bind_done (read_stream 4) _ _ (read_stream-append 4 _ _ (laws.int_size (length buf)))
      ∙ ap (λ x. rest x (lib.int_of (lib.int_bytes (length buf)))) (laws.int_again acc a)
      ∙ ap (λ n. rest acc n) (laws.int_again (length buf) (omega arith))
      ∙ take_data-parts key acc buf keymd5 k r g h w

  stream_of_parts :
      (key : P) (t : LoginTokenInfo K) (keymd5 buf s : Text)
      → stream_key net lib key (stream_front net lib t keymd5 buf) ≡ some s
      → (k : Text) × (lib.rsa_write_key key file_key_limit ≡ some k)
        × (s ≡ stream_front net lib t keymd5 buf ++ (lib.int_bytes (length k) ++ k))
  unfolding stream_key
  stream_of_parts key t keymd5 buf s h = some_of (lib.rsa_write_key key file_key_limit) _ s h

  -- Let the library read numbers and keys as it wrote them and let a checksum equal itself. For a
  -- token with an account of 32 bits whose encrypted bytes fit in `session_buf`: when
  -- `session_to_stream` succeeds, `stream_to_session` on its bytes gives the account, the
  -- encrypted token, the checksum of the server's key and the key, and leaves what follows.
  pub stream_to_session-session_to_stream :
      (key : P) (t : LoginTokenInfo K) (keymd5 buf s r : Text)
      → t.acc_index < 2 ^ 32
      → length keymd5 ≡ 16
      → encrypted net lib t ≡ some buf
      → length buf ≤ session_limit
      → session_to_stream net lib key t keymd5 ≡ some s
      → stream_to_session net lib (s ++ r)
        ≡ done
            (record {
              load_acc_index = t.acc_index;
              session_data = buf;
              keymd5 = keymd5;
              srv_key = key;
            })
            r
  unfolding session_to_stream stream_to_session stream_front
  stream_to_session-session_to_stream key t keymd5 buf s r a h e g w =
      let front =
        ap
          (λ o. elim o [
            | none ↦ none
            | some b ↦ stream_key net lib key (stream_front net lib t keymd5 b)
          ])
          (sym e)
        ∙ w in
      let parts = stream_of_parts key t keymd5 buf s front in
      ap (λ x. take_session net lib read_stream stream_key_limit (x ++ r)) parts.2
      ∙ ap (λ x. take_session net lib read_stream stream_key_limit x)
          (parts_in_a_row (lib.md5_crypt16 buf) (lib.int_bytes t.acc_index)
            (lib.int_bytes (length buf)) buf keymd5 (lib.int_bytes (length parts.0)) parts.0 r)
      ∙ take_session-parts key t.acc_index buf keymd5 parts.0 r a g h parts.1
