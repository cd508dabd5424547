-- ===== src/Statistics.antt =====
-- dhcpkit/ipv6/server/statistics.py: counters. The locks are not modelled: an update is one step.
pub mod Categories
pub mod Selection
use dhcpkit.Prelude.{ℕ, ◌+◌, ◌%◌, ◌^◌, Bool, Option, List, [], ◌∷◌, map, any, ◌==◌, if◌then◌else◌}
use dhcpkit.Element.{
  client_server_type, solicit, advertise, request, confirm, renew, rebind, reply, release, decline,
  reconfigure, information_request,
}

-- Value(c_uint64)
abbrev pub Counter : Type 0
Counter = ℕ

-- counter.value += 1
unfoldable pub increment : Counter → Counter
increment n = (n + 1) % 2 ^ 64

-- The counters per message type.
abbrev pub Counters : Type 0
Counters = List (ℕ × Counter)

-- create_update_dict_method
unfoldable pub increment_key : ℕ → Counters → Counters
unfolding increment
increment_key key [] = []
increment_key key ((k, n) ∷ more) =
    let others = increment_key key more in
    if key == k then (k, increment n) ∷ more else (k, n) ∷ others

pub record Statistics : Type 0 where
  pub incoming_packets : Counter
  pub outgoing_packets : Counter
  pub unparsable_packets : Counter
  pub handling_errors : Counter
  pub for_other_server : Counter
  pub do_not_respond : Counter
  pub use_multicast : Counter
  pub unknown_query_type : Counter
  pub malformed_query : Counter
  pub not_allowed : Counter
  pub other_error : Counter
  pub messages_in : Counters
  pub messages_out : Counters

-- Statistics.__init__, for the messages of messages.py
abbrev pub no_statistics : Statistics
no_statistics = record {
  incoming_packets = 0;
  outgoing_packets = 0;
  unparsable_packets = 0;
  handling_errors = 0;
  for_other_server = 0;
  do_not_respond = 0;
  use_multicast = 0;
  unknown_query_type = 0;
  malformed_query = 0;
  not_allowed = 0;
  other_error = 0;
  messages_in =
      map (λ c. (client_server_type c, 0))
        (solicit ∷ request ∷ confirm ∷ renew ∷ rebind ∷ release ∷ decline ∷ information_request
          ∷ []);
  messages_out = map (λ c. (client_server_type c, 0)) (advertise ∷ reply ∷ reconfigure ∷ []);
}

-- The methods that create_update_method and create_update_dict_method make.
unfoldable pub count_incoming_packet : Statistics → Statistics
unfolding increment
count_incoming_packet s = record s { incoming_packets = increment s.incoming_packets }

unfoldable pub count_outgoing_packet : Statistics → Statistics
unfolding increment
count_outgoing_packet s = record s { outgoing_packets = increment s.outgoing_packets }

unfoldable pub count_unparsable_packet : Statistics → Statistics
unfolding increment
count_unparsable_packet s = record s { unparsable_packets = increment s.unparsable_packets }

unfoldable pub count_handling_error : Statistics → Statistics
unfolding increment
count_handling_error s = record s { handling_errors = increment s.handling_errors }

unfoldable pub count_for_other_server : Statistics → Statistics
unfolding increment
count_for_other_server s = record s { for_other_server = increment s.for_other_server }

unfoldable pub count_do_not_respond : Statistics → Statistics
unfolding increment
count_do_not_respond s = record s { do_not_respond = increment s.do_not_respond }

unfoldable pub count_use_multicast : Statistics → Statistics
unfolding increment
count_use_multicast s = record s { use_multicast = increment s.use_multicast }

unfoldable pub count_unknown_query_type : Statistics → Statistics
unfolding increment
count_unknown_query_type s = record s { unknown_query_type = increment s.unknown_query_type }

unfoldable pub count_malformed_query : Statistics → Statistics
unfolding increment
count_malformed_query s = record s { malformed_query = increment s.malformed_query }

unfoldable pub count_not_allowed : Statistics → Statistics
unfolding increment
count_not_allowed s = record s { not_allowed = increment s.not_allowed }

unfoldable pub count_other_error : Statistics → Statistics
unfolding increment
count_other_error s = record s { other_error = increment s.other_error }

unfoldable pub count_message_in : ℕ → Statistics → Statistics
unfolding increment_key
count_message_in key s = record s { messages_in = increment_key key s.messages_in }

unfoldable pub count_message_out : ℕ → Statistics → Statistics
unfolding increment_key
count_message_out key s = record s { messages_out = increment_key key s.messages_out }

-- StatisticsSet: the objects that are updated together, each of which is in the set once.
abbrev pub StatisticsSet : Type 0
StatisticsSet = List Statistics

-- create_count_method and create_count_dict_method
unfoldable pub count_each : (Statistics → Statistics) → StatisticsSet → StatisticsSet
count_each count s = map count s
