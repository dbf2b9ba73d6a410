-- ===== src/ClientLogin/Accepted.antt =====
-- What a stream or a file that is taken for a session has in it (cli_common/login_apollo.cpp).
use apollolib.Base.{
  ℕ, zero, suc, ◌≤◌, Bool, true, false, Option, none, some, [], ◌∷◌, ◌≡◌, refl, sym, ap, subst, ◌∙◌,
  if◌then◌else◌, length, take, drop, arith,
}
use apollolib.Base.Text.{Text}
use apollolib.LoginToken.{NetLib}
use apollolib.GameTables.Files.{Reading, done, refused, fault, Reader, ◌>>=◌}
use apollolib.ClientLogin.Session.{
  CryptLib, LoginSessionLoad, session_limit, stream_key_limit, read_stream, refuse_when, with_key,
  take_key, take_data, take_session, stream_to_session,
}

-- A step of a chain that gives a value.
done_of :
    {A B : Type 0} (x : Reading A) (f : A → Reader B) {b : B} {r : Text}
    → elim x [ done a s ↦ f a s | refused ↦ refused | fault ↦ fault ] ≡ done b r
    → (a : A) × (s : Text) × (x ≡ done a s) × (f a s ≡ done b r)
done_of (done a s) f h = (a, s, refl, h)
done_of refused f h = cc (h)
done_of fault f h = cc (h)

pub bind_inverse :
    {A B : Type 0} (m : Reader A) (f : A → Reader B) (s : Text) {b : B} {r : Text}
    → (m >>= f) s ≡ done b r
    → (a : A) × (t : Text) × (m s ≡ done a t) × (f a t ≡ done b r)
bind_inverse m f s h = done_of (m s) f h

pub refuse_when_inverse :
    {A : Type 0} (b : Bool) (body : Reader A) (s : Text) {a : A} {r : Text}
    → refuse_when b body s ≡ done a r
    → (b ≡ false) × (body s ≡ done a r)
unfolding refuse_when
refuse_when_inverse true body s h = cc (h)
refuse_when_inverse false body s h = (refl, h)

length-take_le : (n : ℕ) (s : Text) → length (take n s) ≤ n
length-take_le zero s = omega arith
length-take_le (suc n) [] = omega arith
length-take_le (suc n) (x ∷ s) = let shorter = length-take_le n s in omega arith

chosen_value :
    {A : Type 0} (b : Bool) (x : A) (s : Text) {a : A} {r : Text}
    → (if b then refused else done x s) ≡ done a r
    → a ≡ x
chosen_value true x s h = cc (h)
chosen_value false x s h = cc (h)

read_stream_inverse :
    (n : ℕ) (s : Text) {a r : Text} → read_stream n s ≡ done a r → (a ≡ take n s) × (length a ≤ n)
unfolding read_stream
read_stream_inverse n s {a} {r} h =
    let same = chosen_value _ (take n s) (drop n s) h in
    let short = length-take_le n s in (same, subst (λ x. length x ≤ n) (sym same) short)

abbrev index_or : {P : Type 0} → ℕ → Reading (LoginSessionLoad P) → ℕ
index_or n (done x r) = x.load_acc_index
index_or n refused = n
index_or n fault = n

abbrev data_or : {P : Type 0} → Text → Reading (LoginSessionLoad P) → Text
data_or b (done x r) = x.session_data
data_or b refused = b
data_or b fault = b

key_value :
    {P : Type 0} (o : Option P) (acc : ℕ) (buf keymd5 s : Text) {x : LoginSessionLoad P} {r : Text}
    → elim o [
      | none ↦ refused
      | some key ↦
          done
            (record { load_acc_index = acc; session_data = buf; keymd5 = keymd5; srv_key = key })
            s
    ]
      ≡ done x r
    → (x.load_acc_index ≡ acc) × (x.session_data ≡ buf)
key_value none acc buf keymd5 s h = cc (h)
key_value (some key) acc buf keymd5 s {x} {r} h =
    (ap (λ y. index_or acc y) (sym h), ap (λ y. data_or buf y) (sym h))

module _ {K P : Type 0} (net : NetLib K) (lib : CryptLib K P) where
  take_key_inverse :
      (limit acc : ℕ) (buf s : Text) {x : LoginSessionLoad P} {r : Text}
      → take_key net lib read_stream limit acc buf s ≡ done x r
      → (x.load_acc_index ≡ acc) × (x.session_data ≡ buf)
  unfolding take_key with_key
  take_key_inverse limit acc buf s h =
      let md5 = bind_inverse (read_stream 16) _ s h in
      let size = bind_inverse (read_stream 4) _ md5.1 md5.3 in
      let fits = refuse_when_inverse _ _ size.1 size.3 in
      let key = bind_inverse (read_stream (lib.int_of size.0)) _ size.1 fits.1 in
      key_value (lib.rsa_read_key key.0) acc buf md5.0 key.1 key.3

  -- The data, the checksum that is in front and the account of a session that was taken.
  take_data_inverse :
      (limit : ℕ) (md5 : Text) (acc size : ℕ) (s : Text) {x : LoginSessionLoad P} {r : Text}
      → take_data net lib read_stream limit md5 acc size s ≡ done x r
      → (length x.session_data ≤ session_limit)
        × (lib.md5_cmp md5 (lib.md5_crypt16 x.session_data) ≡ false)
        × (x.load_acc_index ≡ acc)
        × (x.session_data ≡ take size s)
  unfolding take_data
  take_data_inverse limit md5 acc size s {x} {r} h =
      let fits = refuse_when_inverse _ _ s h in
      let buf = bind_inverse (read_stream size) _ s fits.1 in
      let same = refuse_when_inverse _ _ buf.1 buf.3 in
      let rest = take_key_inverse limit acc buf.0 buf.1 same.1 in
      let part = read_stream_inverse size s buf.2 in
      let small : size ≤ session_limit = ground arith in
      (
        subst (λ b. length b ≤ session_limit) (sym rest.1) (omega arith),
        ap (λ b. lib.md5_cmp md5 (lib.md5_crypt16 b)) rest.1 ∙ same.0,
        rest.0,
        rest.1 ∙ part.0,
      )

  -- Whatever stream `stream_to_session` takes, with the library's functions arbitrary: the data
  -- of the session have at most 1024 bytes, and their checksum agrees with the first 16 bytes of
  -- the stream.
  pub stream_to_session-checked :
      (s : Text) {x : LoginSessionLoad P} {r : Text}
      → stream_to_session net lib s ≡ done x r
      → (length x.session_data ≤ session_limit)
        × (lib.md5_cmp (take 16 s) (lib.md5_crypt16 x.session_data) ≡ false)
  unfolding stream_to_session take_session
  stream_to_session-checked s {x} {r} h =
      let md5 = bind_inverse (read_stream 16) _ s h in
      let acc = bind_inverse (read_stream 4) _ md5.1 md5.3 in
      let size = bind_inverse (read_stream 4) _ acc.1 acc.3 in
      let rest = take_data_inverse stream_key_limit md5.0 _ _ size.1 size.3 in
      let first = read_stream_inverse 16 s md5.2 in
      (rest.0, ap (λ m. lib.md5_cmp m (lib.md5_crypt16 x.session_data)) (sym first.0) ∙ rest.1)
