-- ===== src/ClientLogin/HostTests.antt =====
-- A list of servers in a message.
use apollolib.Base.{
  ℕ, true, false, none, some, [], ◌∷◌, ◌++◌, ◌≡◌, refl, ap, ◌∙◌, ltb, if◌then◌else◌, length, take,
  arith,
}
use apollolib.Base.Text.{Text}
use apollolib.GameTables.Files.{read_bytes}
use apollolib.MessageData.Tests.{messages, messages-IsMsgLib, to_zero, to_zero_again}
use apollolib.ClientLogin.Hosts.{
  HostListNode, not_listed, listed, over_buffer, read_field, read_name, into_list, listed_of,
  host_bytes, read_names, read_flags, read_host, read_hosts, get_server_list, get_sub_host_list,
}
use apollolib.ClientLogin.HostList.{IsHost, ReadsSized, all_host_bytes, get_server_list-hosts}

abbrev cut : ℕ → Text × Text → Text × Text
cut n p = if ltb (length p.0) n then p else (take n p.0, p.1)

abbrev read_sized : ℕ → Text → Text × Text
read_sized n s = cut n (to_zero s)

read_sized-again : ReadsSized messages read_sized
read_sized-again n s r h small =
    let short : ltb (length s) n ≡ true = ground arith in
    ap (λ p. cut n p) (to_zero_again s r h) ∙ ap (λ b. if b then (s, r) else (take n s, r)) short

abbrev no_host : HostListNode
no_host = record {
  port = 0;
  max_number = 0;
  cur_number = 0;
  logic_group_id = 0;
  isdefault_entry = 0;
  is_debug = 0;
  version_id = 0;
  inet_ip = [];
  host_name = [];
}

abbrev host : HostListNode
host = record {
  port = 7000;
  max_number = 500;
  cur_number = 12;
  logic_group_id = 3;
  isdefault_entry = 1;
  is_debug = 0;
  version_id = 70000;
  inet_ip = 49 ∷ (58 ∷ []);
  host_name = 65 ∷ [];
}

host-IsHost : IsHost host
host-IsHost = record {
  port_fits = omega arith;
  max_fits = omega arith;
  cur_fits = omega arith;
  group_fits = omega arith;
  entry_fits = omega arith;
  debug_fits = omega arith;
  version_fits = omega arith;
  ip_there = omega arith;
  ip_fits = omega arith;
  ip_text = (omega arith, (omega arith, tt));
  name_there = omega arith;
  name_fits = omega arith;
  name_text = (omega arith, tt);
}

get_server_list-hosts_example :
    get_server_list messages read_sized
      (some (messages.u16 1 ++ (all_host_bytes messages read_sized (host ∷ []) ++ [])))
      (no_host ∷ (no_host ∷ []))
    ≡ listed 1 (host ∷ (no_host ∷ []))
get_server_list-hosts_example =
    get_server_list-hosts messages messages-IsMsgLib read_sized read_sized-again (host ∷ [])
      (no_host ∷ (no_host ∷ [])) [] (omega arith) (omega arith) (host-IsHost, tt)

-- Two nodes do not fit in a buffer for one.
one_too_many :
    get_server_list messages read_sized
      (some (
        messages.u16 2
        ++ (host_bytes messages read_sized host ++ host_bytes messages read_sized host)))
      (no_host ∷ [])
    ≡ over_buffer
unfolding get_server_list listed_of read_hosts into_list host_bytes read_bytes
one_too_many = refl

-- A node that ends early keeps the fields that were read, and counts.
cut_short :
    get_server_list messages read_sized (some (0 ∷ (1 ∷ (0 ∷ (80 ∷ []))))) (no_host ∷ [])
    ≡ listed 1 ((record no_host { port = 80 }) ∷ [])
unfolding get_server_list listed_of read_hosts into_list read_host read_flags read_names read_field
    read_name read_bytes
cut_short = refl

not_connected : get_sub_host_list messages read_sized false none [] ≡ not_listed
unfolding get_sub_host_list
not_connected = refl
