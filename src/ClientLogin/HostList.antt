-- ===== src/ClientLogin/HostList.antt =====
-- A list of servers that was written is read again (include/apollo_data.h, cli_common/login_apollo.cpp).
use mathlib.Core.List.{append_assoc}
use apollolib.Base.{
  ℕ, suc, ◌<◌, ◌^◌, Bool, true, false, none, some, List, [], ◌∷◌, ◌++◌, ◌≡◌, refl, sym, ap, ◌∙◌,
  ◌==◌, ltb, if◌then◌else◌, length, drop, All, arith,
}
use apollolib.Base.Text.{Text}
use apollolib.GameTables.Files.{done, refused, fault, Reader}
use apollolib.MessageData.{MsgLib}
use apollolib.MessageData.Written.{IsMsgLib}
use apollolib.ClientLogin.Hosts.{
  HostListNode, HostRead, listed, over_buffer, ip_text_size, host_name_size, read_field, read_name,
  into_list, listed_of, host_bytes, read_names, read_flags, read_host, read_hosts, get_server_list,
}

-- The fields of a node fit in their types, and its texts are not empty and fit in its buffers.
pub record IsHost (h : HostListNode) : Type 0 where
  pub port_fits : h.port < 2 ^ 16
  pub max_fits : h.max_number < 2 ^ 16
  pub cur_fits : h.cur_number < 2 ^ 16
  pub group_fits : h.logic_group_id < 2 ^ 16
  pub entry_fits : h.isdefault_entry < 2 ^ 8
  pub debug_fits : h.is_debug < 2 ^ 8
  pub version_fits : h.version_id < 2 ^ 32
  pub ip_there : 0 < length h.inet_ip
  pub ip_fits : length h.inet_ip < ip_text_size
  pub ip_text : All (λ c. 0 < c) h.inet_ip
  pub name_there : 0 < length h.host_name
  pub name_fits : length h.host_name < host_name_size
  pub name_text : All (λ c. 0 < c) h.host_name

-- What the code relies on when it reads a text into a buffer that has room for it.
abbrev pub ReadsSized : {F V : Type 0} → MsgLib F V → (ℕ → Text → Text × Text) → Type 0
ReadsSized lib read_sized =
    (n : ℕ) (s r : Text)
    → All (λ c. 0 < c) s
    → length s < n
    → read_sized n (lib.text_bytes s ++ r) ≡ (s, r)

read_field-done :
    {A : Type 0} (read : Reader A) (set : A → HostListNode → HostListNode)
    (next : HostListNode → Text → HostRead) (node : HostListNode) (s : Text) {a : A} {r : Text}
    → read s ≡ done a r
    → read_field read set next node s ≡ next (set a node) r
unfolding read_field
read_field-done read set next node s h =
    ap
      (λ x. elim x [
        | done a r ↦ next (set a node) r
        | refused ↦ (false, node, s)
        | fault ↦ (false, node, s)
      ])
      h

read_name-done :
    (read : Text → Text × Text) (set : Text → HostListNode → HostListNode)
    (next : HostListNode → Text → HostRead) (node : HostListNode) (s : Text) {x r : Text}
    → read s ≡ (x, r)
    → 0 < length x
    → read_name read set next node s ≡ next (set x node) r
unfolding read_name
read_name-done read set next node s {x} {r} h there =
    let full : (length x == 0) ≡ false = ground arith in
    ap (λ p. if length p.0 == 0 then (false, set p.0 node, p.1) else next (set p.0 node) p.1) h
    ∙ ap (λ b. if b then (false, set x node, r) else next (set x node) r) full

ltb-suc : (m n : ℕ) → ltb (suc m) (suc n) ≡ ltb m n
ltb-suc m n = ground arith

into_list-if :
    (b : Bool) (h : HostListNode) (l : List HostListNode)
    → into_list h (if b then none else some l) ≡ (if b then none else some (h ∷ l))
unfolding into_list
into_list-if true h l = refl
into_list-if false h l = refl

fields_in_a_row :
    (a b c d e f g h i r : Text)
    → (a ++ (b ++ (c ++ (d ++ (e ++ (f ++ (g ++ (h ++ i)))))))) ++ r
      ≡ a ++ (b ++ (c ++ (d ++ (e ++ (f ++ (g ++ (h ++ (i ++ r))))))))
fields_in_a_row a b c d e f g h i r = simp append_assoc

module _ {F V : Type 0} (lib : MsgLib F V) (read_sized : ℕ → Text → Text × Text) where
  -- The bytes of nodes behind each other.
  unfoldable pub all_host_bytes : List HostListNode → Text
  all_host_bytes [] = []
  all_host_bytes (h ∷ hosts) = host_bytes lib read_sized h ++ all_host_bytes hosts

module _ {F V : Type 0} (lib : MsgLib F V) (laws : IsMsgLib lib)
    (read_sized : ℕ → Text → Text × Text) (sized : ReadsSized lib read_sized) where
  read_host-host_bytes :
      (h b : HostListNode) (r : Text)
      → IsHost h
      → read_host lib read_sized b (host_bytes lib read_sized h ++ r) ≡ (true, h, r)
  unfolding read_host read_flags read_names host_bytes
  read_host-host_bytes h b r i =
      ap (λ s. read_host lib read_sized b s)
        (fields_in_a_row (lib.u16 h.port) (lib.u16 h.max_number) (lib.u16 h.cur_number)
          (lib.u16 h.logic_group_id) (lib.u8 h.isdefault_entry) (lib.u8 h.is_debug)
          (lib.u32 h.version_id) (lib.text_bytes h.inet_ip) (lib.text_bytes h.host_name) r)
      ∙ read_field-done lib.read16 _ _ _ _ (laws.read16-u16 h.port _ i.port_fits)
      ∙ read_field-done lib.read16 _ _ _ _ (laws.read16-u16 h.max_number _ i.max_fits)
      ∙ read_field-done lib.read16 _ _ _ _ (laws.read16-u16 h.cur_number _ i.cur_fits)
      ∙ read_field-done lib.read16 _ _ _ _ (laws.read16-u16 h.logic_group_id _ i.group_fits)
      ∙ read_field-done lib.read8 _ _ _ _ (laws.read8-u8 h.isdefault_entry _ i.entry_fits)
      ∙ read_field-done lib.read8 _ _ _ _ (laws.read8-u8 h.is_debug _ i.debug_fits)
      ∙ read_field-done lib.read32 _ _ _ _ (laws.read32-u32 h.version_id _ i.version_fits)
      ∙ read_name-done (read_sized ip_text_size) _ _ _ _
          (sized ip_text_size h.inet_ip _ i.ip_text i.ip_fits) i.ip_there
      ∙ read_name-done (read_sized host_name_size) _ _ _ _
          (sized host_name_size h.host_name r i.name_text i.name_fits) i.name_there

  read_hosts-all_host_bytes :
      (hosts buf : List HostListNode) (r : Text)
      → All IsHost hosts
      → read_hosts lib read_sized (length hosts) buf (all_host_bytes lib read_sized hosts ++ r) ≡ (
          if ltb (length buf) (length hosts) then none else some (hosts ++ drop (length hosts) buf))
  unfolding read_hosts all_host_bytes
  read_hosts-all_host_bytes [] buf r i = ground arith
  read_hosts-all_host_bytes (h ∷ hosts) [] r i = ground arith
  read_hosts-all_host_bytes (h ∷ hosts) (b ∷ buf) r i =
      let first = read_host-host_bytes h b (all_host_bytes lib read_sized hosts ++ r) i.0 in
      ap (λ s. read_hosts lib read_sized (suc (length hosts)) (b ∷ buf) s)
        (append_assoc (host_bytes lib read_sized h) (all_host_bytes lib read_sized hosts) r)
      ∙ ap (λ (o : HostRead). into_list o.1 (read_hosts lib read_sized (length hosts) buf o.2))
          first
      ∙ ap (λ o. into_list h o) (read_hosts-all_host_bytes hosts buf r i.1)
      ∙ into_list-if _ h _
      ∙ ap (λ c. if c then none else some (h ∷ (hosts ++ drop (length hosts) buf)))
          (sym (ltb-suc (length buf) (length hosts)))

  -- Let the library read numbers and texts that fit in their buffers as it wrote them. On a
  -- message with the number of nodes, from 1 to 65535, and their bytes as `WriteStream` puts
  -- them, where the texts are not empty and all fields fit, `GetServerList` leaves these nodes at
  -- the front of the buffer and answers their number when the buffer has room for them, and
  -- writes behind the buffer when it has not.
  pub get_server_list-hosts :
      (hosts buf : List HostListNode) (r : Text)
      → 0 < length hosts
      → length hosts < 2 ^ 16
      → All IsHost hosts
      → get_server_list lib read_sized
          (some (lib.u16 (length hosts) ++ (all_host_bytes lib read_sized hosts ++ r)))
          buf
        ≡ (if ltb (length buf) (length hosts)
            then over_buffer
            else listed (length hosts) (hosts ++ drop (length hosts) buf))
  unfolding get_server_list listed_of
  get_server_list-hosts hosts buf r there few i =
      let some_host : (length hosts == 0) ≡ false = ground arith in
      let rest = all_host_bytes lib read_sized hosts ++ r in
      ap
        (λ x. elim x [
          | done num s ↦
              if num == 0 then listed 0 buf else listed_of num (read_hosts lib read_sized num buf s)
          | refused ↦ listed 0 buf
          | fault ↦ listed 0 buf
        ])
        (laws.read16-u16 (length hosts) rest few)
      ∙ ap
          (λ b.
            if b
            then listed 0 buf
            else listed_of (length hosts) (read_hosts lib read_sized (length hosts) buf rest))
          some_host
      ∙ ap (λ o. listed_of (length hosts) o) (read_hosts-all_host_bytes hosts buf r i)
      ∙ (ground arith)
