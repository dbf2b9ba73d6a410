-- ===== src/Players.antt =====
-- srv_common/playerMgr.h, playerMgr.cpp, gameRole.cpp and srv_msghandler.cpp: the players that are
-- online on a host and the ways of a message to them. What the network library is asked to do is
-- a value; its answers go back to the caller and change nothing here.
use apollolib.Base.{
  ℕ, zero, suc, ◌%◌, ◌^◌, Bool, true, false, Option, none, some, List, [], ◌∷◌, ◌==◌, if◌then◌else◌,
}
use apollolib.Base.Keys.{number_key}
use apollolib.Base.Maps.{find, insert, erase}
mod Routing
mod Tests

-- `player_node_info`; the session is a word of 16 bits.
pub record PlayerNodeInfo : Type 0 where
  pub player_id : ℕ
  pub session_id : ℕ

abbrev pub PlayerMap : Type 0
PlayerMap = List (ℕ × PlayerNodeInfo)

-- The messages that wrap another one.
pub data Wrapper : Type 0 where
  directly_to_client : Wrapper
  call_session_msgproc : Wrapper

-- What is asked of the network library, for messages of a type `M`.
pub data Request (M : Type 0) : Type 0 where
  send_session : (session : ℕ) → M → (encrypt : Bool) → Request M
  send_all : M → (encrypt : Bool) → Request M
  handle_session : (session : ℕ) → M → Request M
  handle_all : M → Request M
  send_world : Wrapper → (player : ℕ) → (encrypt : ℕ) → (saved : ℕ) → M → Request M
  refused : Request M
  assert_failed : Request M

-- `PlayerMgr::Add`: the id and the session of a role.
unfoldable pub add_player : ℕ → ℕ → PlayerMap → PlayerMap
add_player id session m = insert id (record { player_id = id; session_id = session % 2 ^ 16 }) m

-- `PlayerMgr::Del`
unfoldable pub del_player : ℕ → PlayerMap → PlayerMap
del_player id m = elim (find id m) [ none ↦ m | some info ↦ erase id m ]

unfoldable pub get_session_id : ℕ → PlayerMap → ℕ
get_session_id id m = elim (find id m) [ none ↦ 0 | some info ↦ info.session_id ]

abbrev pub flag_byte : Bool → ℕ
flag_byte true = 1
flag_byte false = 0

-- `wrapper_id` and `msg_id` are the words of 16 bits that the numbers of a message make.
module _ {M : Type 0} (wrapper_id : Wrapper → ℕ) (msg_id : M → ℕ) where
  -- `PlayerMgr::wrapToWorld`, with its assertion that the message is not such a wrapper itself.
  unfoldable pub wrap_to_world : M → Wrapper → ℕ → Bool → Bool → Request M
  wrap_to_world msg wrapper player encrypt saved =
      if wrapper_id wrapper == msg_id msg
      then assert_failed
      else send_world wrapper player (flag_byte encrypt) (flag_byte saved) msg

  -- `PlayerMgr::Send`
  unfoldable pub send : ℕ → M → Bool → Bool → PlayerMap → Request M
  send player msg encrypt saved m =
      let session = get_session_id player m in
      if session == 0
      then wrap_to_world msg directly_to_client player encrypt saved
      else send_session session msg encrypt

  -- `PlayerMgr::CallMsgProc`
  unfoldable pub call_msg_proc : ℕ → M → Bool → PlayerMap → Request M
  call_msg_proc player msg saved m =
      if player == 0
      then refused
      else let session = get_session_id player m in
        if session == 0
        then wrap_to_world msg call_session_msgproc player false saved
        else handle_session session msg

  -- `BroadCastInWorld` and `CallMsgProcInWorld`, where the world is reached through the server that
  -- synchronises the hosts.
  unfoldable pub broadcast_in_world : M → Bool → Request M
  broadcast_in_world msg encrypt = wrap_to_world msg directly_to_client 0 encrypt false

  unfoldable pub call_msg_proc_in_world : M → Request M
  call_msg_proc_in_world msg = wrap_to_world msg call_session_msgproc 0 false false

  -- `Role::SendtoOther` and `Role::CallMsgProc`
  unfoldable pub send_to_other : ℕ → M → Bool → PlayerMap → Request M
  send_to_other role_id msg save m = send role_id msg false save m

  unfoldable pub role_call_msg_proc : ℕ → M → Bool → PlayerMap → Request M
  role_call_msg_proc player msg save m = call_msg_proc player msg save m

module _ {M : Type 0} where
  -- `BroadCastInHost` and `CallMsgProcInHost`
  unfoldable pub broadcast_in_host : M → Bool → Request M
  broadcast_in_host msg encrypt = send_all msg encrypt

  unfoldable pub call_msg_proc_in_host : M → Request M
  call_msg_proc_in_host msg = handle_all msg

  -- `unwrap_sendto_player_entry`: what is read of the session, of the flag and of the message;
  -- `none` for a read that fails, and for a message whose size is not its own.
  unfoldable pub unwrap_sendto_player : Option ℕ → Option ℕ → Option M → Request M
  unwrap_sendto_player none encrypt msg = refused
  unwrap_sendto_player (some sid) none msg = refused
  unwrap_sendto_player (some sid) (some encrypt) none = refused
  unwrap_sendto_player (some zero) (some encrypt) (some msg) =
      broadcast_in_host msg (if encrypt == 0 then false else true)
  unwrap_sendto_player (some (suc sid)) (some encrypt) (some msg) =
      send_session (suc sid) msg (if encrypt == 0 then false else true)

  -- `unwrap_call_session_msgproc_entry`
  unfoldable pub unwrap_call_session_msgproc : Option ℕ → Option ℕ → Option M → Request M
  unwrap_call_session_msgproc none encrypt msg = refused
  unwrap_call_session_msgproc (some sid) none msg = refused
  unwrap_call_session_msgproc (some sid) (some encrypt) none = refused
  unwrap_call_session_msgproc (some zero) (some encrypt) (some msg) = call_msg_proc_in_host msg
  unwrap_call_session_msgproc (some (suc sid)) (some encrypt) (some msg) =
      handle_session (suc sid) msg

  -- `bridge_to_client_dirctly_entry`
  unfoldable pub bridge_to_client : Option ℕ → M → Request M
  bridge_to_client none msg = refused
  bridge_to_client (some zero) msg = broadcast_in_host msg false
  bridge_to_client (some (suc sid)) msg = send_session (suc sid) msg false
