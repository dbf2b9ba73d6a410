-- ===== src/Players/Routing.antt =====
-- Where a message to a player goes after any logins and logouts (srv_common/playerMgr.cpp,
-- srv_common/srv_msghandler.cpp).
use apollolib.Base.{
  ℕ, ◌%◌, ◌^◌, Bool, List, [], ◌∷◌, ◌≡◌, refl, ap, subst, ◌==◌, if◌then◌else◌, arith, Option-cases,
  inl, inr,
}
use apollolib.Base.Keys.{number_key}
use apollolib.Base.Maps.{
  find, erase, IsAscending, insert-IsAscending, erase-IsAscending, find-insert, find-erase,
}
use apollolib.Players.{
  PlayerMap, directly_to_client, call_session_msgproc, send_session, handle_session, send_world,
  refused, assert_failed, Wrapper, Request, add_player, del_player, get_session_id, flag_byte,
  wrap_to_world, send, call_msg_proc,
}

-- A role enters with its session, or leaves.
pub data Visit : Type 0 where
  enters : (id session : ℕ) → Visit
  leaves : (id : ℕ) → Visit

abbrev pub after_visit : Visit → PlayerMap → PlayerMap
after_visit (enters id session) m = add_player id session m
after_visit (leaves id) m = del_player id m

-- The map after visits, the last one first.
abbrev pub visits : List Visit → PlayerMap
visits [] = []
visits (v ∷ vs) = after_visit v (visits vs)

-- The session that a player entered with last, in 16 bits, or 0 after it has left.
abbrev pub last_session : ℕ → List Visit → ℕ
last_session id [] = 0
last_session id (enters k session ∷ vs) =
    let before = last_session id vs in if id == k then session % 2 ^ 16 else before
last_session id (leaves k ∷ vs) = let before = last_session id vs in if id == k then 0 else before

after_visit-IsAscending :
    (v : Visit) (m : PlayerMap) → IsAscending m → IsAscending (after_visit v m)
unfolding add_player del_player
after_visit-IsAscending (enters id session) m a = insert-IsAscending id _ m a
after_visit-IsAscending (leaves id) m a = elim (Option-cases (find id m)) [
  | inl e ↦ let same : m ≡ del_player id m = ground arith in subst IsAscending same a
  | inr (info, e) ↦
      let erased : erase id m ≡ del_player id m = ground arith in
      subst IsAscending erased (erase-IsAscending id m a)
]

visits-IsAscending : (vs : List Visit) → IsAscending (visits vs)
visits-IsAscending [] = tt
visits-IsAscending (v ∷ vs) = after_visit-IsAscending v (visits vs) (visits-IsAscending vs)

pub get_session_id-visits :
    (id : ℕ) (vs : List Visit) → get_session_id id (visits vs) ≡ last_session id vs
unfolding get_session_id add_player del_player find
get_session_id-visits id [] = refl
get_session_id-visits id (enters k session ∷ vs) = ground (
  arith,
  find-insert id k (record { player_id = k; session_id = session % 2 ^ 16 }) (visits vs),
  get_session_id-visits id vs,
)
get_session_id-visits id (leaves k ∷ vs) =
    ground (arith, find-erase id k (visits vs) (visits-IsAscending vs), get_session_id-visits id vs)

module _ {M : Type 0} (wrapper_id : Wrapper → ℕ) (msg_id : M → ℕ) where
  -- What goes to the server of the world, unless the message is such a wrapper itself.
  abbrev pub to_world : Wrapper → ℕ → ℕ → ℕ → M → Request M
  to_world wrapper id encrypt saved msg =
      if wrapper_id wrapper == msg_id msg
      then assert_failed
      else send_world wrapper id encrypt saved msg

  -- After any roles have entered with their sessions, which are kept in 16 bits, and left, `Send`
  -- and `CallMsgProc` for a player ask for the session with which the player entered last. When
  -- the player has left, has never entered or the session that was kept is 0, they ask for the
  -- server of the world with the player's id and the flags, unless the message has the number of
  -- the wrapper itself, where the assertion fails; `CallMsgProc` refuses the player 0.
  pub send-visits :
      (id : ℕ) (msg : M) (encrypt saved : Bool) (vs : List Visit)
      → (send wrapper_id msg_id id msg encrypt saved (visits vs) ≡ (
          if last_session id vs == 0
          then to_world directly_to_client id (flag_byte encrypt) (flag_byte saved) msg
          else send_session (last_session id vs) msg encrypt))
        × (call_msg_proc wrapper_id msg_id id msg saved (visits vs) ≡ (
            if id == 0
            then refused
            else if last_session id vs == 0
            then to_world call_session_msgproc id 0 (flag_byte saved) msg
            else handle_session (last_session id vs) msg))
  unfolding send call_msg_proc wrap_to_world
  send-visits id msg encrypt saved vs = (
    ap
        (λ s.
          if s == 0
          then to_world directly_to_client id (flag_byte encrypt) (flag_byte saved) msg
          else send_session s msg encrypt)
        (get_session_id-visits id vs),
    ap
        (λ s.
          if id == 0
          then refused
          else if s == 0
          then to_world call_session_msgproc id 0 (flag_byte saved) msg
          else handle_session s msg)
        (get_session_id-visits id vs),
  )
