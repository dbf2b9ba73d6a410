-- ===== src/LoginToken/Tests.antt =====
-- A token and a transfer in bytes of the network order.
use apollolib.Base.{
  ℕ, zero, suc, ◌+◌, ◌*◌, ◌/◌, ◌%◌, ◌^◌, Bool, true, false, none, some, [], ◌∷◌, ◌++◌, ◌≡◌, refl,
  ltb, length, arith,
}
use apollolib.Base.Text.{Text}
use apollolib.LoginToken.{
  put, over_buf, transfer_len, NetLib, LoginTokenInfo, TransferSessionKey, taken, over_write,
  over_read, to_buf, from_buf, transfer_to_buf, transfer_from_buf,
}
use apollolib.LoginToken.RoundTrip.{IsNetLib, from_buf-to_buf, transfer_from_buf-to_buf}

abbrev pub sixteen : ℕ → Text
sixteen x =
    x ∷ (x ∷ (x ∷ (x ∷ (x ∷ (x ∷ (x ∷ (x ∷ (x ∷ (x ∷ (x ∷ (x ∷ (x ∷ (x ∷ (x ∷ (x ∷ [])))))))))))))))

abbrev key_bytes_of : Bool → Text
key_bytes_of true = sixteen 1
key_bytes_of false = sixteen 0

abbrev first_bit : Text → Bool
first_bit [] = false
first_bit (x ∷ s) = ltb 0 x

abbrev pub big_endian : ℕ → Text → ℕ
big_endian n [] = n
big_endian n (x ∷ s) = big_endian (n * 256 + x) s

abbrev pub four : ℕ → Text
four n = (n / 2 ^ 24) ∷ ((n / 2 ^ 16 % 256) ∷ ((n / 256 % 256) ∷ ((n % 256) ∷ [])))

abbrev pub network : NetLib Bool
network = record {
  long_bytes = four;
  short_bytes = λ n. (n / 256) ∷ ((n % 256) ∷ []);
  longlong_bytes = λ n. four (n / 2 ^ 32) ++ four (n % 2 ^ 32);
  key_bytes = key_bytes_of;
  long_of = big_endian 0;
  short_of = big_endian 0;
  longlong_of = big_endian 0;
  key_of = first_bit;
}

key_bytes-size : (k : Bool) → length (key_bytes_of k) ≡ 16
key_bytes-size true = refl
key_bytes-size false = refl

key_bytes-again : (k : Bool) → first_bit (key_bytes_of k) ≡ k
key_bytes-again true = refl
key_bytes-again false = refl

network-IsNetLib : IsNetLib network
network-IsNetLib = record {
  long_size = λ n. omega arith;
  short_size = λ n. omega arith;
  longlong_size = λ n. omega arith;
  key_size = key_bytes-size;
  long_again = λ n h. omega arith;
  short_again = λ n h. omega arith;
  longlong_again = λ n h. omega arith;
  key_again = key_bytes-again;
}

abbrev pub copies : ℕ → Text
copies zero = []
copies (suc n) = 7 ∷ copies n

abbrev pub token : LoginTokenInfo Bool
token = record {
  acc_index = 70001;
  session_key = 12;
  reserved = 0;
  create_tm = 1700000000;
  sym_key = true;
  udid = copies 64;
}

abbrev pub token_text : Text
token_text =
    0
    ∷ (1
        ∷ (17
            ∷ (113
                ∷ (0
                    ∷ (12
                        ∷ (0
                            ∷ (0
                                ∷ (0
                                    ∷ (0
                                        ∷ (0
                                            ∷ (0
                                                ∷ (101
                                                    ∷ (83
                                                        ∷ (241
                                                            ∷ (0
                                                            ∷ (sixteen 1
                                                            ++ copies 64))))))))))))))))

token_written : to_buf network token 128 ≡ some token_text
unfolding to_buf
token_written = refl

-- A buffer of just the size of a token is refused.
token_refused : to_buf network token 96 ≡ none
unfolding to_buf
token_refused = refl

from_buf-to_buf_example : from_buf network (token_text ++ (5 ∷ [])) 97 ≡ taken token 96
from_buf-to_buf_example =
    from_buf-to_buf network network-IsNetLib token 128 97 token_text (5 ∷ [])
      (record {
        acc_fits = omega arith;
        session_fits = omega arith;
        reserved_fits = omega arith;
        tm_fits = omega arith;
        udid_fits = refl;
      })
      token_written (omega arith)

-- A buffer between 17 and 95 bytes is read behind its end.
short_token : from_buf network (copies 20) 20 ≡ over_read
unfolding from_buf
short_token = refl

abbrev transfer_of : Text → TransferSessionKey Bool
transfer_of s = record {
  transfer_acc_index = 9;
  transfer_udid = copies 64;
  new_key = false;
  session_buf = s;
}

abbrev transfer_head : Text
transfer_head = 0 ∷ (0 ∷ (0 ∷ (9 ∷ (copies 64 ++ sixteen 0))))

abbrev transfer_text : Text
transfer_text = transfer_head ++ (0 ∷ (0 ∷ (0 ∷ (104 ∷ copies 104))))

transfer_written : transfer_to_buf network (transfer_of (copies 104)) 2000 ≡ put transfer_text
unfolding transfer_to_buf
transfer_written = refl

transfer_from_buf-to_buf_example :
    transfer_from_buf network (transfer_text ++ (1 ∷ [])) ≡ taken (transfer_of (copies 104)) 192
transfer_from_buf-to_buf_example =
    transfer_from_buf-to_buf network network-IsNetLib (transfer_of (copies 104))
      (record {
        transfer_acc_fits = omega arith;
        transfer_udid_fits = refl;
        session_len_fits = omega arith;
      })
      2000 transfer_text (1 ∷ []) transfer_written

-- A size above 1024 reads behind `session_buf` when it is written, and writes behind it when it is read.
too_long_to_write : transfer_to_buf network (transfer_of (copies 1100)) 2000 ≡ over_buf
unfolding transfer_to_buf
too_long_to_write = refl

too_long_to_read :
    transfer_from_buf network (transfer_head ++ (0 ∷ (0 ∷ (4 ∷ (76 ∷ copies 1100))))) ≡ over_write
unfolding transfer_from_buf transfer_len
too_long_to_read = refl
