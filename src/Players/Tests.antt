-- ===== src/Players/Tests.antt =====
-- Messages to players that come and go.
use apollolib.Base.{ℕ, true, false, List, [], ◌∷◌, ◌≡◌, refl, ◌==◌, if◌then◌else◌, some}
use apollolib.Base.Keys.{number_key}
use apollolib.Base.Maps.{find, insert, erase}
use apollolib.Players.{
  Wrapper, assert_failed, send_session, send_world, handle_session, refused, directly_to_client,
  call_session_msgproc, flag_byte, add_player, del_player, get_session_id, send, call_msg_proc,
  wrap_to_world, unwrap_sendto_player, broadcast_in_host, send_all,
}
use apollolib.Players.Routing.{Visit, enters, leaves, visits, last_session, to_world, send-visits}

-- 5 enters with 40 and again with 41, 6 enters and leaves; the last visit stands first.
abbrev evening : List Visit
evening = leaves 6 ∷ (enters 5 41 ∷ (enters 6 50 ∷ (enters 5 40 ∷ [])))

-- A message
abbrev hello : ℕ
hello = 77

-- A message is its own number.
abbrev number_of : ℕ → ℕ
number_of m = m

abbrev wrapper_number : Wrapper → ℕ
wrapper_number directly_to_client = 300
wrapper_number call_session_msgproc = 301

to_five :
    send wrapper_number number_of 5 hello true false (visits evening) ≡ send_session 41 hello true
unfolding send get_session_id add_player del_player find insert erase
to_five = refl

to_six :
    send wrapper_number number_of 6 hello true false (visits evening)
    ≡ send_world directly_to_client 6 1 0 hello
unfolding send get_session_id add_player del_player find insert erase wrap_to_world
to_six = refl

-- A wrapped message without a session goes to all.
unwrapped : unwrap_sendto_player (some 0) (some 1) (some hello) ≡ send_all hello true
unfolding unwrap_sendto_player broadcast_in_host
unwrapped = refl

-- A wrapper is not wrapped again.
wrapped_twice : send wrapper_number number_of 6 300 true false (visits evening) ≡ assert_failed
unfolding send get_session_id add_player del_player find insert erase wrap_to_world
wrapped_twice = refl

-- A session of 65536 is kept as 0.
session_lost :
    send wrapper_number number_of 5 hello true false (visits (enters 5 65536 ∷ []))
    ≡ send_world directly_to_client 5 1 0 hello
unfolding send get_session_id add_player del_player find insert erase wrap_to_world
session_lost = refl

send-visits_example :
    (send wrapper_number number_of 5 hello true false (visits evening) ≡ (
      if last_session 5 evening == 0
      then to_world wrapper_number number_of directly_to_client 5
          (flag_byte true)
          (flag_byte false)
          hello
      else send_session (last_session 5 evening) hello true))
    × (call_msg_proc wrapper_number number_of 5 hello false (visits evening) ≡ (
        if 5 == 0
        then refused
        else if last_session 5 evening == 0
        then to_world wrapper_number number_of call_session_msgproc 5 0 (flag_byte false) hello
        else handle_session (last_session 5 evening) hello))
send-visits_example = send-visits wrapper_number number_of 5 hello true false evening
