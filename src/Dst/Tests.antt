-- ===== src/Dst/Tests.antt =====
-- The theorems on crates/stratamoto-dst at concrete files, timers and networks.
use mathlib.Core.List.{Permᴰ}
use stratamoto.Base.{
  ℕ, ◌<◌, ◌≡◌, ◌↔◌, refl, true, false, [], ◌∷◌, some, map_get, map_insert, ok, panic, arith,
}
use stratamoto.Dst.Files.{File, INode, FileSystem, read_at, write_all_at}
use stratamoto.Dst.Files.Contents.{read_at-write_all_at, read_at-eq-panic_iff}
use stratamoto.Dst.Time.{TimeRuntime, advance}
use stratamoto.Dst.Time.Advances.{AdvancedTo, advance-AdvancedTo}
use stratamoto.Dst.Network.{
  Random, InRange, Network, new_network, get, connect, send, advance_network,
}
use stratamoto.Dst.Network.Routed.{IsRouted, Sent, send-Sent, send-connect}
use stratamoto.Dst.Network.Conserved.{messages}
use stratamoto.Dst.Network.Reachable.{starts, steps, opens, sends, Reachable-IsRouted}

abbrev one_node : INode
one_node = record { path = 1; contents = 5 ∷ 6 ∷ 7 ∷ [] }

abbrev one_file : FileSystem
one_file = record { inodes = one_node ∷ []; handles = [] }

abbrev writable : File
writable = record { inode = 0; can_write = true }

read_at-write_all_at_example :
    (s : FileSystem) × (write_all_at writable (8 ∷ 9 ∷ []) 2 one_file ≡ ok s)
    × (read_at writable 2 2 s ≡ ok (8 ∷ 9 ∷ []))
read_at-write_all_at_example =
    read_at-write_all_at writable one_file one_node (8 ∷ 9 ∷ []) 2 refl refl (omega arith)

read_at-eq-panic_iff_example : (read_at writable 0 4 one_file ≡ panic) ↔ (3 < 4)
read_at-eq-panic_iff_example = read_at-eq-panic_iff writable one_file one_node 0 4 refl

abbrev two_timers : TimeRuntime ℕ
two_timers = record {
  timer = record {
    queue = record { deadline = 9; callback = 1 } ∷ record { deadline = 7; callback = 2 } ∷ [];
  };
  clock = record { base = 5; advanced = 1 };
}

advance-AdvancedTo_example : AdvancedTo two_timers (advance two_timers)
advance-AdvancedTo_example = advance-AdvancedTo two_timers (omega arith, (omega arith, tt))

-- random numbers that never fail and are the lowest of a range
abbrev lowest : Random (Unit {0}) ℕ
lowest = record { should_fault = λ p r. (false, r); gen_range = λ low high r. (low, r) }

lowest-InRange : InRange lowest
lowest-InRange low high r h = (omega arith, h)

abbrev two_hosts : Network (Unit {0}) ℕ
two_hosts = record (new_network {P = ℕ} 0 tt 5) {
  endpoints = (1, 0) ∷ (2, 1) ∷ [];
  channels = [] ∷ [] ∷ [];
}

host_known : map_get 1 two_hosts.endpoints ≡ some 0
unfolding map_get
host_known = refl

send-connect_example : send lowest 1 2 7 (3 ∷ []) (connect 2 two_hosts) ≡ ok (connect 2 two_hosts)
send-connect_example = send-connect lowest 1 2 7 0 (3 ∷ []) two_hosts host_known

abbrev opened : Network (Unit {0}) ℕ
opened = (get 2 (get 1 (new_network {P = ℕ} 0 tt 5)).1).1

one_sent :
    (n : Network (Unit {0}) ℕ) × (send lowest 1 2 7 (3 ∷ []) opened ≡ ok n)
    × Sent lowest 1 2 7 (3 ∷ []) opened n
unfolding get map_get map_insert
one_sent = send-Sent lowest 1 2 7 0 (3 ∷ []) opened lowest-InRange (omega arith) refl

Reachable-IsRouted_example :
    IsRouted one_sent.0 × Permᴰ (messages (advance_network one_sent.0).1) (messages one_sent.0)
Reachable-IsRouted_example = Reachable-IsRouted lowest one_sent.0 lowest-InRange (
    steps (steps (steps (starts 0 tt 5) (opens 1)) (opens 2))
      (sends 1 2 7 (3 ∷ []) one_sent.0 one_sent.1))
