-- ===== src/LoginToken/RoundTrip.antt =====
-- Tokens and transferred keys are read as they were written (include/loginToken.h).
use mathlib.Core.List.{append_assoc}
use apollolib.Base.{
  ℕ, ◌+◌, ◌^◌, ◌<◌, ◌≤◌, some, ◌++◌, ◌≡◌, ap, subst, ◌∙◌, length, take, drop, take_append,
  drop_append, length-append, arith,
}
use apollolib.Base.Text.{Text}
use apollolib.LoginToken.{
  NetLib, LoginTokenInfo, TransferSessionKey, taken, put, token_size, transfer_size, udid_size,
  session_size, to_buf, take_token, from_buf, transfer_to_buf, transfer_len, take_transfer,
  transfer_from_buf,
}

-- What the code relies on.
pub record IsNetLib {K : Type 0} (lib : NetLib K) : Type 0 where
  pub long_size : (n : ℕ) → length (lib.long_bytes n) ≡ 4
  pub short_size : (n : ℕ) → length (lib.short_bytes n) ≡ 2
  pub longlong_size : (n : ℕ) → length (lib.longlong_bytes n) ≡ 8
  pub key_size : (k : K) → length (lib.key_bytes k) ≡ 16
  pub long_again : (n : ℕ) → n < 2 ^ 32 → lib.long_of (lib.long_bytes n) ≡ n
  pub short_again : (n : ℕ) → n < 2 ^ 16 → lib.short_of (lib.short_bytes n) ≡ n
  pub longlong_again : (n : ℕ) → n < 2 ^ 64 → lib.longlong_of (lib.longlong_bytes n) ≡ n
  pub key_again : (k : K) → lib.key_of (lib.key_bytes k) ≡ k

-- The fields of a token fit in their types.
pub record IsToken {K : Type 0} (t : LoginTokenInfo K) : Type 0 where
  pub acc_fits : t.acc_index < 2 ^ 32
  pub session_fits : t.session_key < 2 ^ 16
  pub reserved_fits : t.reserved < 2 ^ 16
  pub tm_fits : t.create_tm < 2 ^ 64
  pub udid_fits : length t.udid ≡ udid_size

take_of : (n : ℕ) (x r : Text) → length x ≡ n → take n (x ++ r) ≡ x
take_of n x r h = subst (λ k. take k (x ++ r) ≡ x) h (take_append x r)

drop_of : (n : ℕ) (x r : Text) → length x ≡ n → drop n (x ++ r) ≡ r
drop_of n x r h = subst (λ k. drop k (x ++ r) ≡ r) h (drop_append x r)

module _ {K : Type 0} (lib : NetLib K) (laws : IsNetLib lib) where
  token_bytes : LoginTokenInfo K → Text
  token_bytes t =
      lib.long_bytes t.acc_index
      ++ (lib.short_bytes t.session_key
          ++ (lib.short_bytes t.reserved
              ++ (lib.longlong_bytes t.create_tm ++ (lib.key_bytes t.sym_key ++ t.udid))))

  to_buf-some :
      (t : LoginTokenInfo K) (n : ℕ) (b : Text) → to_buf lib t n ≡ some b → b ≡ token_bytes t
  unfolding to_buf token_bytes
  to_buf-some t n b h = ground arith

  length-token_bytes : (t : LoginTokenInfo K) → IsToken t → length (token_bytes t) ≡ token_size
  unfolding token_bytes
  length-token_bytes t i =
      let p1 = lib.long_bytes t.acc_index in
      let p2 = lib.short_bytes t.session_key in
      let p3 = lib.short_bytes t.reserved in
      let p4 = lib.longlong_bytes t.create_tm in
      let p5 = lib.key_bytes t.sym_key in
      omega (
        arith,
        length-append p1 (p2 ++ (p3 ++ (p4 ++ (p5 ++ t.udid)))),
        length-append p2 (p3 ++ (p4 ++ (p5 ++ t.udid))),
        length-append p3 (p4 ++ (p5 ++ t.udid)),
        length-append p4 (p5 ++ t.udid),
        length-append p5 t.udid,
        laws.long_size t.acc_index,
        laws.short_size t.session_key,
        laws.short_size t.reserved,
        laws.longlong_size t.create_tm,
        laws.key_size t.sym_key,
        i.udid_fits,
      )

  take_token-token_bytes :
      (t : LoginTokenInfo K) (r : Text) → IsToken t → take_token lib (token_bytes t ++ r) ≡ t
  unfolding take_token token_bytes
  take_token-token_bytes t r i =
      let p1 = lib.long_bytes t.acc_index in
      let p2 = lib.short_bytes t.session_key in
      let p3 = lib.short_bytes t.reserved in
      let p4 = lib.longlong_bytes t.create_tm in
      let p5 = lib.key_bytes t.sym_key in
      let s5 = t.udid ++ r in
      let s4 = p5 ++ s5 in
      let s3 = p4 ++ s4 in
      let s2 = p3 ++ s3 in
      let s1 = p2 ++ s2 in
      let whole : token_bytes t ++ r ≡ p1 ++ s1 = simp append_assoc in
      ap (take_token lib) whole
      ∙ ground (
        arith,
        drop_of 4 p1 s1 (laws.long_size t.acc_index),
        take_of 4 p1 s1 (laws.long_size t.acc_index),
        drop_of 2 p2 s2 (laws.short_size t.session_key),
        take_of 2 p2 s2 (laws.short_size t.session_key),
        drop_of 2 p3 s3 (laws.short_size t.reserved),
        take_of 2 p3 s3 (laws.short_size t.reserved),
        drop_of 8 p4 s4 (laws.longlong_size t.create_tm),
        take_of 8 p4 s4 (laws.longlong_size t.create_tm),
        drop_of 16 p5 s5 (laws.key_size t.sym_key),
        take_of 16 p5 s5 (laws.key_size t.sym_key),
        take_of udid_size t.udid r i.udid_fits,
        laws.long_again t.acc_index i.acc_fits,
        laws.short_again t.session_key i.session_fits,
        laws.short_again t.reserved i.reserved_fits,
        laws.longlong_again t.create_tm i.tm_fits,
        laws.key_again t.sym_key,
      )

  -- Let the library read each number and key as it wrote them. When the fields of a token fit in
  -- their types and `toBuf` succeeds, `fromBuf` on its bytes, whatever follows them, with a size
  -- above 16 gives the same token and the size 96.
  pub from_buf-to_buf :
      (t : LoginTokenInfo K) (n m : ℕ) (b r : Text)
      → IsToken t
      → to_buf lib t n ≡ some b
      → 16 < m
      → from_buf lib (b ++ r) m ≡ taken t token_size
  unfolding from_buf
  from_buf-to_buf t n m b r i h g =
      let bytes = to_buf-some t n b h in
      ground (
        arith,
        length-append b r,
        length-token_bytes t i,
        ap (λ l. l ++ r) bytes,
        take_token-token_bytes t r i,
      )

-- The fields of a transfer fit in their types.
pub record IsTransfer {K : Type 0} (t : TransferSessionKey K) : Type 0 where
  pub transfer_acc_fits : t.transfer_acc_index < 2 ^ 32
  pub transfer_udid_fits : length t.transfer_udid ≡ udid_size
  pub session_len_fits : length t.session_buf ≤ session_size

module _ {K : Type 0} (lib : NetLib K) (laws : IsNetLib lib) where
  transfer_bytes : TransferSessionKey K → Text
  transfer_bytes t =
      lib.long_bytes t.transfer_acc_index
      ++ (t.transfer_udid
          ++ (lib.key_bytes t.new_key ++ (lib.long_bytes (length t.session_buf) ++ t.session_buf)))

  transfer_to_buf-some :
      (t : TransferSessionKey K) (n : ℕ) (b : Text)
      → transfer_to_buf lib t n ≡ put b
      → b ≡ transfer_bytes t
  unfolding transfer_to_buf transfer_bytes
  transfer_to_buf-some t n b h = ground arith

  length-transfer_bytes :
      (t : TransferSessionKey K)
      → IsTransfer t
      → length (transfer_bytes t) ≡ transfer_size + length t.session_buf
  unfolding transfer_bytes
  length-transfer_bytes t i =
      let p1 = lib.long_bytes t.transfer_acc_index in
      let p3 = lib.key_bytes t.new_key in
      let p4 = lib.long_bytes (length t.session_buf) in
      omega (
        arith,
        length-append p1 (t.transfer_udid ++ (p3 ++ (p4 ++ t.session_buf))),
        length-append t.transfer_udid (p3 ++ (p4 ++ t.session_buf)),
        length-append p3 (p4 ++ t.session_buf),
        length-append p4 t.session_buf,
        laws.long_size t.transfer_acc_index,
        laws.key_size t.new_key,
        laws.long_size (length t.session_buf),
        i.transfer_udid_fits,
      )

  module _ (t : TransferSessionKey K) (i : IsTransfer t) where
    abbrev parts : Text → Text
    parts r =
        lib.long_bytes t.transfer_acc_index
        ++ (t.transfer_udid
            ++ (lib.key_bytes t.new_key
                ++ (lib.long_bytes (length t.session_buf) ++ (t.session_buf ++ r))))

    transfer_bytes-parts : (r : Text) → transfer_bytes t ++ r ≡ parts r
    unfolding transfer_bytes
    transfer_bytes-parts r = simp append_assoc

    parts_len : (r : Text) → transfer_len lib (parts r) ≡ length t.session_buf
    unfolding transfer_len
    parts_len r =
        let p1 = lib.long_bytes t.transfer_acc_index in
        let p3 = lib.key_bytes t.new_key in
        let p4 = lib.long_bytes (length t.session_buf) in
        let s4 = t.session_buf ++ r in
        ground (
          arith,
          drop_of 4 p1 (t.transfer_udid ++ (p3 ++ (p4 ++ s4)))
              (laws.long_size t.transfer_acc_index),
          drop_of udid_size t.transfer_udid (p3 ++ (p4 ++ s4)) i.transfer_udid_fits,
          drop_of 16 p3 (p4 ++ s4) (laws.key_size t.new_key),
          take_of 4 p4 s4 (laws.long_size (length t.session_buf)),
          laws.long_again (length t.session_buf) (omega (arith, i.session_len_fits)),
        )

    parts_taken : (r : Text) → take_transfer lib (parts r) ≡ t
    unfolding take_transfer
    parts_taken r =
        let p1 = lib.long_bytes t.transfer_acc_index in
        let p3 = lib.key_bytes t.new_key in
        let p4 = lib.long_bytes (length t.session_buf) in
        let s4 = t.session_buf ++ r in
        let s3 = p4 ++ s4 in
        let s2 = p3 ++ s3 in
        let s1 = t.transfer_udid ++ s2 in
        ground (
          arith,
          parts_len r,
          drop_of 4 p1 s1 (laws.long_size t.transfer_acc_index),
          take_of 4 p1 s1 (laws.long_size t.transfer_acc_index),
          drop_of udid_size t.transfer_udid s2 i.transfer_udid_fits,
          take_of udid_size t.transfer_udid s2 i.transfer_udid_fits,
          drop_of 16 p3 s3 (laws.key_size t.new_key),
          take_of 16 p3 s3 (laws.key_size t.new_key),
          drop_of 4 p4 s4 (laws.long_size (length t.session_buf)),
          take_append t.session_buf r,
          laws.long_again t.transfer_acc_index i.transfer_acc_fits,
          laws.key_again t.new_key,
        )

    -- Under the same law of the library, for a transferred key whose fields fit in their types,
    -- its session data in the 1024 bytes of `session_buf`, and whose `toBuf` succeeds: `fromBuf`
    -- on its bytes, whatever follows them, gives the same value and its size.
    pub transfer_from_buf-to_buf :
        (n : ℕ) (b r : Text)
        → transfer_to_buf lib t n ≡ put b
        → transfer_from_buf lib (b ++ r) ≡ taken t (transfer_size + length t.session_buf)
    unfolding transfer_from_buf
    transfer_from_buf-to_buf n b r h =
        ap (λ l. transfer_from_buf lib (l ++ r)) (transfer_to_buf-some t n b h)
        ∙ ap (transfer_from_buf lib) (transfer_bytes-parts r)
        ∙ ground (
          arith,
          i.session_len_fits,
          length-transfer_bytes t i,
          length-append (transfer_bytes t) r,
          ap length (transfer_bytes-parts r),
          parts_len r,
          parts_taken r,
        )
