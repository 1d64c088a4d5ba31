-- ===== src/Tests/Containers.antt =====
-- The containers that are spread over servers at concrete inputs: two servers, sorted lists and
-- association lists for the Boost containers, a network that runs what the servers have bound.
use hcl.Base.{ℕ, ◌≡◌, refl, ◌↔◌, ◌%◌, Bool, true, false, List, [], ◌∷◌, some, none, hits, arith}
use hcl.HashKey.{int_key, int_sort}
use hcl.Sorted.{SortedContainer, sorted_list}
use hcl.Sorted.Lists.{sorted, above}
use hcl.Container.{Container, Network, direct_network, key_server}
use hcl.Container.Gather.{all_of}
use hcl.Container.Routed.{global}
use hcl.Container.Series.{Clients, send_all, answers}
use hcl.Set
use hcl.Set.Series as SetSeries
use hcl.Set.Reads as SetReads
use hcl.Map
use hcl.Map.Series as MapSeries
use hcl.UnorderedMap.{put_server}
use hcl.UnorderedMap.Series as HashSeries
use hcl.UnorderedMap.Table.{hash_list}

abbrev pub near : Container
near = record { num_servers = 2; my_server_idx = 1; is_server = false; server_on_node = true }

abbrev pub far : Container
far = record { num_servers = 2; my_server_idx = 0; is_server = false; server_on_node = false }

abbrev set_store : SortedContainer {E = ℕ} {K = ℕ} (λ k. k)
set_store = sorted_list (λ k. k)

evens-sorted : sorted {E = ℕ} {K = ℕ} (λ k. k) (2 ∷ 4 ∷ 8 ∷ []) ≡ true
unfolding sorted above
evens-sorted = refl

odd-sorted : sorted {E = ℕ} {K = ℕ} (λ k. k) (5 ∷ []) ≡ true
unfolding sorted above
odd-sorted = refl

abbrev evens : set_store.Store
evens = (2 ∷ 4 ∷ 8 ∷ [], evens-sorted)

abbrev sets : List set_store.Store
sets = evens ∷ (5 ∷ [], odd-sorted) ∷ []

abbrev net : Network set_store.Store
net = direct_network set_store.Store

abbrev set_calls : List (Container × SetSeries.SetCall ℕ)
set_calls =
    (near, SetSeries.SetCall.put_call 3)
    ∷ (far, SetSeries.SetCall.get_call 3)
    ∷ (near, SetSeries.SetCall.erase_call 4)
    ∷ (far, SetSeries.SetCall.get_call 4)
    ∷ []

set_calls-Clients : Clients 2 set_calls
unfolding Clients
set_calls-Clients = (refl, (refl, (refl, (refl, tt))))

send_all-member_example :
    send_all (SetSeries.send set_store net) sets set_calls
    ≡ some (
        answers SetSeries.key_of SetSeries.answer SetSeries.member_after set_calls
          (global false (SetSeries.member set_store) sets))
send_all-member_example =
    SetSeries.send_all-member set_store net sets set_calls (omega arith) (omega arith)
      set_calls-Clients

contains-range_of_example :
    (out : List ℕ) × (Set.contains set_store net near sets (3, 6) ≡ some (out, sets))
    × ((p : ℕ → Bool) → hits p out ≡ hits p (all_of (SetReads.range_of set_store (3, 6)) sets))
contains-range_of_example =
    SetReads.contains-range_of set_store net near sets (3, 6) refl (omega arith)

pop_series-elements_example :
    (s' : set_store.Store) × (SetReads.pop_series set_store 0 3 evens
      ≡ some ((true, 2) ∷ (true, 4) ∷ (true, 8) ∷ [], s'))
    × (set_store.elements s' ≡ [])
pop_series-elements_example = SetReads.pop_series-elements set_store 0 evens

abbrev map_store : SortedContainer {E = ℕ × ℕ} {K = ℕ} Map.first
map_store = sorted_list Map.first

pairs-sorted : sorted {E = ℕ × ℕ} {K = ℕ} Map.first ((2, 20) ∷ (4, 40) ∷ []) ≡ true
unfolding sorted above
pairs-sorted = refl

pair-sorted : sorted {E = ℕ × ℕ} {K = ℕ} Map.first ((5, 50) ∷ []) ≡ true
unfolding sorted above
pair-sorted = refl

abbrev maps : List map_store.Store
maps = ((2, 20) ∷ (4, 40) ∷ [], pairs-sorted) ∷ ((5, 50) ∷ [], pair-sorted) ∷ []

abbrev map_net : Network map_store.Store
map_net = direct_network map_store.Store

abbrev map_calls : List (Container × MapSeries.MapCall ℕ ℕ)
map_calls =
    (near, MapSeries.MapCall.put_call 3 30)
    ∷ (far, MapSeries.MapCall.get_call 3)
    ∷ (near, MapSeries.MapCall.erase_call 4)
    ∷ (far, MapSeries.MapCall.get_call 4)
    ∷ []

map_calls-Clients : Clients 2 map_calls
unfolding Clients
map_calls-Clients = (refl, (refl, (refl, (refl, tt))))

send_all-value_at_example :
    send_all (MapSeries.send map_store map_net 0) maps map_calls
    ≡ some (
        answers MapSeries.key_of
          (MapSeries.answer 0)
          MapSeries.value_after
          map_calls
          (global none (MapSeries.value_at map_store) maps))
send_all-value_at_example =
    MapSeries.send_all-value_at map_store map_net 0 maps map_calls (omega arith) (omega arith)
      map_calls-Clients

put_server-key_server_example : ((h : ℕ) → put_server near h ≡ key_server near h) ↔ (65536 % 2 ≡ 0)
put_server-key_server_example = HashSeries.put_server-key_server near (omega arith) (omega arith)

abbrev tables : List (List (ℕ × ℕ))
tables = ((6, 60) ∷ []) ∷ [] ∷ []

abbrev hash_calls : List (Container × HashSeries.UnorderedMapCall ℕ ℕ)
hash_calls =
    (near, HashSeries.UnorderedMapCall.put_call 70001 7)
    ∷ (far, HashSeries.UnorderedMapCall.get_call 70001)
    ∷ (near, HashSeries.UnorderedMapCall.erase_call 6)
    ∷ (far, HashSeries.UnorderedMapCall.get_call 6)
    ∷ []

hash_calls-Clients : Clients 2 hash_calls
unfolding Clients
hash_calls-Clients = (refl, (refl, (refl, (refl, tt))))

send_all-value_of_example :
    send_all (HashSeries.send hash_list 0 (direct_network (List (ℕ × ℕ)))) tables hash_calls
    ≡ some (
        answers HashSeries.key_of
          (HashSeries.answer 0)
          HashSeries.value_after
          hash_calls
          (global none (HashSeries.value_of hash_list 0) tables))
send_all-value_of_example =
    HashSeries.send_all-value_of hash_list 0 (direct_network (List (ℕ × ℕ))) tables hash_calls
      (omega arith) (omega arith) refl hash_calls-Clients
