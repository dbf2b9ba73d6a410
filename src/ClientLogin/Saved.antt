-- ===== src/ClientLogin/Saved.antt =====
-- The file of a session and its stream (cli_common/login_apollo.cpp).
use mathlib.Core.List.{append_assoc}
use apollolib.Base.{
  ℕ, Bool, true, false, ◌||◌, Option, none, some, [], ◌++◌, ◌≡◌, refl, sym, ap, ◌∙◌, ◌==◌,
  if◌then◌else◌, length, arith,
}
use apollolib.Base.Text.{Text}
use apollolib.LoginToken.{NetLib, LoginTokenInfo}
use apollolib.GameTables.Files.{Reading, done, refused, Reader, ◌>>=◌}
use apollolib.GameTables.Reload.{bind_done}
use apollolib.ClientLogin.Session.{
  CryptLib, LoginSessionLoad, file_key_limit, stream_key_limit, read_stream, read_file, write_file,
  refuse_when, encrypted, stream_key, stream_front, session_to_stream, take_key, take_data,
  take_session, stream_to_session, load_session_info, save_front, save_key, save_session_info,
}
use apollolib.ClientLogin.Accepted.{bind_inverse, refuse_when_inverse}
use apollolib.ClientLogin.Stored.{refuse_when-false}

-- What the first reader takes, the second takes as well.
abbrev Below : {A : Type 0} → Reader A → Reader A → Type 0
Below {A} m n = (s : Text) (a : A) (r : Text) → m s ≡ done a r → n s ≡ done a r

Below-bind :
    {A B : Type 0} (m n : Reader A) (f g : A → Reader B)
    → Below m n
    → ((a : A) → Below (f a) (g a))
    → Below (m >>= f) (n >>= g)
Below-bind m n f g h k s b r e =
    let step = bind_inverse m f s e in
    bind_done n g s (h s step.0 step.1 step.2) ∙ k step.0 step.1 b r step.3

Below-refuse_when :
    {A : Type 0} (b c : Bool) (m n : Reader A)
    → (b ≡ false → c ≡ false)
    → Below m n
    → Below (refuse_when b m) (refuse_when c n)
Below-refuse_when b c m n h k s a r e =
    let step = refuse_when_inverse b m s e in refuse_when-false c n s (h step.0) ∙ k s a r step.1

one_check_less :
    {A : Type 0} (b c : Bool) (x : Reading A) {a : A} {r : Text}
    → (if b || c then refused else x) ≡ done a r
    → (if c then refused else x) ≡ done a r
one_check_less true c x h = cc (h)
one_check_less false c x h = h

Below-read : (n : ℕ) → Below (read_file n) (read_stream n)
unfolding read_file read_stream
Below-read n s a r e = one_check_less (n == 0) _ _ e

module _ {K P : Type 0} (net : NetLib K) (lib : CryptLib K P) where
  Below-take_key :
      (acc : ℕ) (buf : Text)
      → Below
          (take_key net lib read_file file_key_limit acc buf)
          (take_key net lib read_stream stream_key_limit acc buf)
  unfolding take_key
  Below-take_key acc buf = Below-bind _ _ _ _ (Below-read 16) (λ keymd5.
      Below-bind _ _ _ _ (Below-read 4) (λ size.
        Below-refuse_when _ _ _ _ (λ h. ground arith)
          (Below-bind _ _ _ _ (Below-read _) (λ k s a r e. e))))

  Below-take_data :
      (md5 : Text) (acc size : ℕ)
      → Below
          (take_data net lib read_file file_key_limit md5 acc size)
          (take_data net lib read_stream stream_key_limit md5 acc size)
  unfolding take_data
  Below-take_data md5 acc size =
      Below-refuse_when _ _ _ _ (λ h. h)
        (Below-bind _ _ _ _ (Below-read _)
          (λ buf. Below-refuse_when _ _ _ _ (λ h. h) (Below-take_key acc buf)))

  load_session_info-Below :
      (s : Text) (x : LoginSessionLoad P) (r : Text)
      → load_session_info net lib (some s) ≡ done x r
      → stream_to_session net lib s ≡ done x r
  unfolding load_session_info stream_to_session take_session
  load_session_info-Below s x r e =
      Below-bind _ _ _ _ (Below-read 16)
        (λ md5.
          Below-bind _ _ _ _ (Below-read 4)
            (λ acc. Below-bind _ _ _ _ (Below-read 4) (λ size. Below-take_data md5 _ _)))
        s x r e

written_if :
    (b : Bool) (g x f : Text)
    → ◌≡◌ {A = Bool × Text} (if b then (false, g) else (true, g ++ x)) (true, f)
    → f ≡ g ++ x
written_if true g x f h = cc (h)
written_if false g x f h = ap (λ p. p.1) (sym h)

write_file_inverse :
    (room : ℕ) (file : Bool × Text) (x f : Text)
    → write_file room file x ≡ (true, f)
    → (g : Text) × (file ≡ (true, g)) × (f ≡ g ++ x)
unfolding write_file
write_file_inverse room (false, g) x f h = cc (h)
write_file_inverse room (true, g) x f h = (g, refl, written_if _ g x f h)

in_one_row : (a b c d e : Text) → (((([] ++ a) ++ b) ++ c) ++ d) ++ e ≡ a ++ (b ++ (c ++ (d ++ e)))
in_one_row a b c d e = simp append_assoc

module _ {K P : Type 0} (net : NetLib K) (lib : CryptLib K P) where
  save_front_inverse :
      (room : ℕ) (t : LoginTokenInfo K) (keymd5 buf f : Text)
      → save_front net lib room t keymd5 buf ≡ (true, f)
      → f
        ≡ (((([] ++ lib.md5_crypt16 buf) ++ lib.int_bytes t.acc_index)
              ++ lib.int_bytes (length buf))
            ++ buf)
          ++ keymd5
  unfolding save_front
  save_front_inverse room t keymd5 buf f h =
      let e = write_file_inverse room _ keymd5 f h in
      let d = write_file_inverse room _ buf e.0 e.1 in
      let c = write_file_inverse room _ (lib.int_bytes (length buf)) d.0 d.1 in
      let b = write_file_inverse room _ (lib.int_bytes t.acc_index) c.0 c.1 in
      let a = write_file_inverse room _ (lib.md5_crypt16 buf) b.0 b.1 in
      let start : a.0 ≡ [] = ap (λ p. p.1) (sym a.1) in
      e.2
      ∙ ap (λ x. x ++ keymd5)
          (d.2
            ∙ ap (λ x. x ++ buf)
                (c.2
                  ∙ ap (λ x. x ++ lib.int_bytes (length buf))
                      (b.2
                        ∙ ap (λ x. x ++ lib.int_bytes t.acc_index)
                            (a.2 ∙ ap (λ x. x ++ lib.md5_crypt16 buf) start))))

  abbrev saved_with : ℕ → Text → Option Text → Bool × Text
  saved_with room g none = (false, g)
  saved_with room g (some k) =
      write_file room (write_file room (true, g) (lib.int_bytes (length k))) k

  save_key_inverse :
      (room : ℕ) (key : P) (o : Option Text) (file : Bool × Text) (f : Text)
      → lib.rsa_write_key key file_key_limit ≡ o
      → save_key net lib room key file ≡ (true, f)
      → (g : Text) × (file ≡ (true, g)) × (stream_key net lib key g ≡ some f)
  unfolding save_key stream_key
  save_key_inverse room key o (false, g) f e h = cc (h)
  save_key_inverse room key none (true, g) f e h =
      let failed = sym (ap (λ o. saved_with room g o) e) ∙ h in cc (failed)
  save_key_inverse room key (some k) (true, g) f e h =
      let saved = sym (ap (λ o. saved_with room g o) e) ∙ h in
      let last = write_file_inverse room _ k f saved in
      let size = write_file_inverse room _ (lib.int_bytes (length k)) last.0 last.1 in
      let front : size.0 ≡ g = ap (λ p. p.1) (sym size.1) in
      let all : f ≡ g ++ (lib.int_bytes (length k) ++ k) =
        last.2
        ∙ ap (λ x. x ++ k) (size.2 ∙ ap (λ x. x ++ lib.int_bytes (length k)) front)
        ∙ append_assoc g (lib.int_bytes (length k)) k in
      (
        g,
        refl,
        ap (λ o. elim o [ none ↦ none | some y ↦ some (g ++ (lib.int_bytes (length y) ++ y)) ]) e
            ∙ ap (λ x. some x) (sym all),
      )

  saved_buf :
      (room : ℕ) (key : P) (t : LoginTokenInfo K) (keymd5 f : Text) (o : Option Text)
      → ◌≡◌ {A = Bool × Text}
          (elim o [
            | none ↦ (false, [])
            | some buf ↦ save_key net lib room key (save_front net lib room t keymd5 buf)
          ])
          (true, f)
      → elim o [
        | none ↦ none
        | some buf ↦ stream_key net lib key (stream_front net lib t keymd5 buf)
      ]
        ≡ some f
  unfolding stream_front
  saved_buf room key t keymd5 f none h = cc (h)
  saved_buf room key t keymd5 f (some buf) h =
      let front = save_front net lib room t keymd5 buf in
      let parts = save_key_inverse room key (lib.rsa_write_key key file_key_limit) front f refl h in
      let row =
        save_front_inverse room t keymd5 buf parts.0 parts.1
        ∙ in_one_row (lib.md5_crypt16 buf) (lib.int_bytes t.acc_index) (lib.int_bytes (length buf))
            buf keymd5 in
      sym (ap (λ g. stream_key net lib key g) row) ∙ parts.2

  -- With the library's functions arbitrary: when `save_session_info` answers 0 and
  -- `load_session_info` reads the file that it left, the file holds the very bytes of
  -- `session_to_stream`, and `stream_to_session` reads the same session from them.
  pub saved_file_as_stream :
      (room : ℕ) (key : P) (t : LoginTokenInfo K) (keymd5 f r : Text) (x : LoginSessionLoad P)
      → save_session_info net lib room key t keymd5 ≡ (true, f)
      → load_session_info net lib (some f) ≡ done x r
      → (session_to_stream net lib key t keymd5 ≡ some f) × (stream_to_session net lib f ≡ done x r)
  unfolding save_session_info session_to_stream
  saved_file_as_stream room key t keymd5 f r x h g = (
    saved_buf room key t keymd5 f (encrypted net lib t) h,
    load_session_info-Below net lib f x r g,
  )
