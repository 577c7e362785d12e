-- ===== src/Lib.antt =====
-- fruitspy: a GameSpy-compatible server for multiplayer games, written in Python (server/fruitspy).
--
-- The program is a set of asyncio services that share one in-memory state. UDP datagrams reach the
-- NAT negotiation service only through an admission controller; the service pairs the two peers of
-- a session, and, where no direct path comes up, opens a UDP relay between them. Game servers report
-- to the availability service, and the server browser lists them to TCP clients, encrypted, and tells
-- subscribers of changes. Every service counts what it does in one metrics registry, and a drain
-- controller stops new work at shutdown.
--
-- Which file models which part (paths from the repository's root):
--   Prelude, Prelude/*       Boolean tests, lists over the native numbers, equality as a class, texts
--                            as character codes, and results: the exceptions that the code raises
--   Dict, Dict/Laws          a Python dict in insertion order
--   Clock                    seconds and nanoseconds
--   Inet, Inet/RoundTrip     the documented behaviour of `socket.inet_aton`, `inet_ntoa` and `struct`,
--                            on the inputs that the code gives them
--   Metrics, Metrics/*       server/fruitspy/metrics.py: the services' calls, recorded in order; Specs and
--                            Registry, the metrics that there are and what a call does to them
--   Bucket, UdpAdmission, ConnectionAdmission  server/fruitspy/admission.py: the token bucket, the
--                            UDP sources with their bans, and the count of TCP connections
--   State, State/*           server/fruitspy/state.py: reported servers, NAT sessions, expiry
--   Drain                    server/fruitspy/drain.py
--   Crypto, Crypto/*         server/fruitspy/crypto.py: the key proof and the two stream ciphers
--   AvailabilityQr, AvailabilityQr/*  server/fruitspy/availability_qr.py: availability checks, heartbeats
--                            and challenges of game servers
--   NatNeg, NatNeg/*         server/fruitspy/natneg.py: Packet (the packets), Handle (the handler of a
--                            negotiation packet), Report (reports of the peers), Activate (the
--                            fallback to a relay), Relay (pings, forwarding, expiry, the end of a
--                            relay), Receive (`datagram_received` and the transport's life), Invariant
--                            (the whole service over any sequence of events)
--   ServerBrowser, ServerBrowser/*  server/fruitspy/server_browser.py: Entry (a server's bytes),
--                            Request (what clients ask, and the answers), Subscription (changes of the
--                            list), Connection (a TCP connection, and any number of them), Offered,
--                            Listed and Complete (which servers are listed)
--   Config, Config/*         server/fruitspy/config.py: the tests of `load_config`, and the ranges
--   LogFields, LogFields/*   server/fruitspy/log_fields.py: what a log line is given
--   Tests/*                  runs on small inputs
--
-- How code becomes a definition. A method that changes its object is a function that takes the
-- object's record last and returns the changed one. A branch on a dictionary's lookup is a helper
-- with one clause for each outcome. An object that a dictionary holds is changed by putting it back
-- under its key, since the code keeps each in that dictionary alone. A method that may raise returns
-- a `Result` beside the state that it leaves. A datagram is sent by appending it to the state's
-- `sent`; a timer is the loop time at which it is due, and its callback is the operation that the
-- timer would call. A loop over a dictionary is recursion over its entries, so no fuel is needed.
-- The two loops that are not of this form, `_select` of EnctypeX and `parse_qr_server_keys`, take
-- fuel: twelve rounds, and two more turns than the packet has bytes; each file says why it is enough.
-- The decimal text of a number takes one step more than its value, which is more than its digits.
-- What the standard library decides in ways not spelled out here, the decoding of UTF-8 and random
-- choice, is an argument of the definitions that use it.
--
-- Numbers. The code's clock counts seconds as a float; here it counts nanoseconds, and the balance of
-- a bucket counts billionths, so `elapsed * rate` is exact where the code rounds. A function that
-- reads the clock more than once takes the readings as `clock : ℕ → ℕ`, numbered in its file by the
-- place of the read; nothing is assumed about their order unless a theorem says so.
--
-- Interfaces. The services meet in `ServerState`, passed on from one to the other; what the server
-- browser takes from `str` and `re` is the record `TextOps`, which its operations are given.
--
-- Not modelled: log lines, sockets and the event loop; the peer chat (server/fruitspy/peerchat.py),
-- reading the configuration's file, the text output and the HTTP endpoint of the metrics, diagnostics,
-- the health check, the command line, and the tools that patch a client program.
mod Prelude
pub mod Dict
pub mod Clock
pub mod Inet
pub mod Metrics
pub mod State
pub mod Crypto
pub mod Tests
pub mod Drain
pub mod NatNeg
pub mod AvailabilityQr
pub mod Config
pub mod LogFields
pub mod ServerBrowser
pub mod Bucket
pub mod UdpAdmission
pub mod ConnectionAdmission
