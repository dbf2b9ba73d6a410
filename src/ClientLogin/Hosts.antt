-- ===== src/ClientLogin/Hosts.antt =====
-- The list of servers that a client is told (include/apollo_data.h, cli_common/login_apollo.cpp).
use apollolib.Base.{
  ℕ, zero, suc, Bool, true, false, Option, none, some, List, [], ◌∷◌, ◌++◌, ◌==◌, if◌then◌else◌,
  length,
}
use apollolib.Base.Text.{Text}
use apollolib.GameTables.Files.{done, refused, fault, Reader}
use apollolib.MessageData.{MsgLib}

-- `host_list_node`; `cur_number` is its word of 16 bits.
pub record HostListNode : Type 0 where
  pub port : ℕ
  pub max_number : ℕ
  pub cur_number : ℕ
  pub logic_group_id : ℕ
  pub isdefault_entry : ℕ
  pub is_debug : ℕ
  pub version_id : ℕ
  pub inet_ip : Text
  pub host_name : Text

-- What `ReadStream` leaves: whether it answers 0, the node, and the message.
abbrev pub HostRead : Type 0
HostRead = Bool × HostListNode × Text

-- What `GetServerList` and `GetSubHostList` do: -1, a number of nodes and the buffer, or writes behind it.
pub data Listed : Type 0 where
  not_listed : Listed
  listed : ℕ → List HostListNode → Listed
  over_buffer : Listed

abbrev pub ip_text_size : ℕ
ip_text_size = 64

abbrev pub host_name_size : ℕ
host_name_size = 64

-- `if (-1 == inmsg.Read(..)) return -1` for a field: a read that fails leaves the message.
unfoldable pub read_field :
    {A : Type 0}
    → Reader A
    → (A → HostListNode → HostListNode)
    → (HostListNode → Text → HostRead)
    → HostListNode
    → Text
    → HostRead
read_field read set next node s = elim (read s) [
  | done a r ↦ next (set a node) r
  | refused ↦ (false, node, s)
  | fault ↦ (false, node, s)
]

-- `if (0 == inmsg.Read(.., size)) return -1` for a text
unfoldable pub read_name :
    (Text → Text × Text)
    → (Text → HostListNode → HostListNode)
    → (HostListNode → Text → HostRead)
    → HostListNode
    → Text
    → HostRead
read_name read set next node s =
    let name = read s in
    if length name.0 == 0 then (false, set name.0 node, name.1) else next (set name.0 node) name.1

unfoldable pub into_list : HostListNode → Option (List HostListNode) → Option (List HostListNode)
into_list node none = none
into_list node (some l) = some (node ∷ l)

unfoldable pub listed_of : ℕ → Option (List HostListNode) → Listed
listed_of num none = over_buffer
listed_of num (some l) = listed num l

-- `read_sized` reads a text into a buffer of a size.
module _ {F V : Type 0} (lib : MsgLib F V) (read_sized : ℕ → Text → Text × Text) where
  -- `host_list_node::WriteStream`: the bytes that it puts in a message with room for them.
  unfoldable pub host_bytes : HostListNode → Text
  host_bytes h =
      lib.u16 h.port
      ++ (lib.u16 h.max_number
          ++ (lib.u16 h.cur_number
              ++ (lib.u16 h.logic_group_id
                  ++ (lib.u8 h.isdefault_entry
                      ++ (lib.u8 h.is_debug
                          ++ (lib.u32 h.version_id
                              ++ (lib.text_bytes h.inet_ip ++ lib.text_bytes h.host_name)))))))

  -- `host_list_node::ReadStream`
  unfoldable pub read_names : HostListNode → Text → HostRead
  read_names =
      read_name (read_sized ip_text_size) (λ x h. record h { inet_ip = x })
        (read_name (read_sized host_name_size) (λ x h. record h { host_name = x })
          (λ h s. (true, h, s)))

  unfoldable pub read_flags : HostListNode → Text → HostRead
  read_flags =
      read_field lib.read8 (λ x h. record h { isdefault_entry = x })
        (read_field lib.read8 (λ x h. record h { is_debug = x })
          (read_field lib.read32 (λ x h. record h { version_id = x }) read_names))

  unfoldable pub read_host : HostListNode → Text → HostRead
  read_host =
      read_field lib.read16 (λ x h. record h { port = x })
        (read_field lib.read16 (λ x h. record h { max_number = x })
          (read_field lib.read16 (λ x h. record h { cur_number = x })
            (read_field lib.read16 (λ x h. record h { logic_group_id = x }) read_flags)))

  -- The nodes are read into the buffer of the caller, and the answers of `ReadStream` are not looked at.
  unfoldable pub read_hosts : ℕ → List HostListNode → Text → Option (List HostListNode)
  read_hosts zero buf s = some buf
  read_hosts (suc n) [] s = none
  read_hosts (suc n) (h ∷ buf) s =
      let one = read_host h s in into_list one.1 (read_hosts n buf one.2)

  -- `GetServerList`, by the message that comes, if one does, and the buffer; its `size` is not looked at.
  unfoldable pub get_server_list : Option Text → List HostListNode → Listed
  get_server_list none buf = not_listed
  get_server_list (some s) buf = elim (lib.read16 s) [
    | done num r ↦ if num == 0 then listed 0 buf else listed_of num (read_hosts num buf r)
    | refused ↦ listed 0 buf
    | fault ↦ listed 0 buf
  ]

  -- `GetSubHostList` connects to another host before.
  unfoldable pub get_sub_host_list : Bool → Option Text → List HostListNode → Listed
  get_sub_host_list connects answer buf =
      if connects then get_server_list answer buf else not_listed
