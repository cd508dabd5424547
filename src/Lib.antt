-- ===== src/Lib.antt =====
-- dhcpkit is a DHCPv6 library and server. Its protocol elements are classes with `load_from`, `save`
-- and `validate`; a registry finds the class for a type code, and `parse` lets that class read the
-- bytes. The server splits a received message into the request and the relay messages around it, lets
-- a list of handlers work on the transaction in phases, and wraps its response in replies to those
-- relay messages.
--
-- The files and the code they model:
--   Wire      `struct` and `bytes` as the code uses them: exceptions as values, `pack`, `unpack_from`
--   Address   `ipaddress`, as far as the code uses it
--   Utf8      `bytes.decode('utf-8')`
--   Duid      dhcpkit/ipv6/duids.py
--   Header    Option.parse_option_header of dhcpkit/ipv6/options.py
--   Leaf      dhcpkit/ipv6/options.py, the options without nested options: Load for `load_from`, Save
--             for `save`, Validate for `validate`
--   Element   dhcpkit/ipv6/options.py and dhcpkit/ipv6/extensions/prefix_delegation.py, the options
--             with nested options or a message; dhcpkit/ipv6/messages.py; the registries, with the
--             entry points of setup.py; Load, Parse, Save and Validate. Contains has validate_contains of
--             dhcpkit/protocol_element.py, Tables what may contain what.
--   Extension  dhcpkit/ipv6/extensions: the options without nested options of remote_id.py,
--             subscriber_id.py, linklayer_id.py, relay_echo_request.py, pd_exclude.py, sol_max_rt.py,
--             sntp.py, and those with addresses, a DUID or a time of dns.py, sip_servers.py,
--             leasequery.py and bulk_leasequery.py; a case of Leaf
--   Domain    dhcpkit/utils.py, the codec for domain names; RoundTrip and Lists for what is read of what
--             was written, Ends for the end of the loops; Options has the options with names of
--             dhcpkit/ipv6/extensions/dns.py, sip_servers.py, dslite.py and client_fqdn.py
--   Ntp       dhcpkit/ipv6/extensions/ntp.py
--   Relay     dhcpkit/ipv6/messages.py and dhcpkit/ipv6/utils.py, the chain of relay messages;
--             Relay.Wrap has create_outgoing_relay_messages of
--             dhcpkit/ipv6/server/transaction_bundle.py
--   Bundle    dhcpkit/ipv6/server/transaction_bundle.py, the state of a transaction; Outgoing for what
--             it sends, Links for the place it comes from
--   Handler   dhcpkit/ipv6/server/handlers and dhcpkit/ipv6/server/extensions/prefix_delegation.py: the
--             base classes and the phases; Status, Basic, Chains, Guards and Unanswered for the
--             handlers; Replaced, Forced and Complete for what they do to the response, Ensures for
--             what holds however they end
--   Filter    dhcpkit/ipv6/server/filters
--   Statistics  dhcpkit/ipv6/server/statistics.py; Selection has get_update_set
--   Server    dhcpkit/ipv6/server/message_handler.py: Answers to Sending follow one property of the
--             bundle from the handlers to what is sent; Refusals and Unicast for the requests that
--             are not handled
--   Assignment  dhcpkit/ipv6/server/extensions/static_assignments: the steps of the handler;
--             Reserved, Adding, Granted and Renewed for what it adds to a response, Keeping for the state
--   Timing    dhcpkit/ipv6/server/extensions/timing_limits
--   RateLimit  dhcpkit/ipv6/server/extensions/rate_limit; Bucket counts what is allowed
--   Worker    dhcpkit/ipv6/server/worker.py and the packets of
--             dhcpkit/ipv6/server/listeners/__init__.py: Receiving for the way from a packet to the
--             transaction, Answering for the way from there to the replier
--   Listener  dhcpkit/ipv6/server/listeners/udp.py and tcp.py: what the repliers send; Destination for
--             where it goes; Stream for the messages on a TCP connection
--   Prelude   shared names and lemmas; Tests has the runs and examples
--
-- Conventions. A byte is a number; a buffer with an offset is the rest of the buffer from there, the
-- view (Wire). `load_from` of a class is a function load_<class> from the view and the optional length
-- to the bytes used and the element, or an exception; `save` is a function save_<class> to the bytes
-- or an exception. An IPv6 address is its sixteen bytes, a text its UTF-8 encoding. The checks of
-- Python types are what the types of the model say, and integers are not negative. Options of one
-- message are a list type of their own, since options hold options and messages.
--
-- Fuel. `parse_option`, `parse_options` and `parse_message` spend a unit of fuel for each nested call
-- and each turn of a loop; every option has a head of four bytes, so the length of the view and three
-- is enough for `parse`. The loops inside one option (user classes, vendor options, requested codes)
-- get one more than the offset at which they stop.
--
-- Handlers. A handler is the record of its methods as functions of the bundle. A method ends in an
-- outcome: the bundle, or an exception with the bundle as it was when it was raised. Exceptions that
-- are no HandlerException are one value of the model, `other_exception`. The statistics of a request are
-- the list of the objects that are updated together. The replier of a packet is a parameter, a function that
-- may raise an exception. Logging has no effect in the model.
--
-- Numbers of the extensions. The factors of the timing limits are floating-point numbers, a parameter
-- with the operations that the code uses. The allowances of the rate limit are exact numbers, counted
-- in parts of a request and ticks of the clock, where the code has floating-point numbers; the clock
-- does not go back.
--
-- Domain names. A str is the list of its code points; idna.encode, idna.decode and idna.alabel are a
-- parameter, and the options with names, and with them the NTP servers, are not among the options of a
-- message, which have no such parameter. The loops get one more unit of fuel than the offset at which they stop.
--
-- Not modelled: the option classes of map.py and timezone.py and the leasequery options with
-- nested elements, which are registered in the same way, so that their codes, and those of the options
-- with domain names and of the NTP servers, are unknown to the registries here; the leasequery messages and their replies;
-- the display functions; the data that handlers keep in a bundle for themselves; the server extensions
-- other than prefix delegation, static assignments, timing limits and rate limit, and of these the
-- files with the assignments and the functions for the keys; the receiving of packets over UDP, processes and configuration; the
-- client and the sockets.
pub mod Prelude
pub mod Wire
pub mod Duid
pub mod Address
pub mod Utf8
pub mod Extension
pub mod Header
pub mod Leaf
pub mod Element
pub mod Domain
pub mod Ntp
pub mod Relay
pub mod Bundle
pub mod Handler
pub mod Filter
pub mod Statistics
pub mod Server
pub mod Assignment
pub mod Timing
pub mod RateLimit
pub mod Worker
pub mod Listener
pub mod Tests
