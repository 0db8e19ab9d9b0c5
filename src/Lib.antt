-- ===== src/Lib.antt =====
-- A model of xrtc-server, a WebRTC media server: browsers push and pull streams over ICE, DTLS and SRTP.
-- A signalling request makes a peer connection; its TransportController owns one DTLS transport for
-- each media section, each over an ICE channel. A channel holds the candidate pairs (IceConnection) of
-- one component and an IceController that says which pair is pinged next and which one sends. Pings
-- and their answers are STUN messages. All paths below are from the repository's root.
--
-- - Net: what the code takes from the library rtc_base, which is not in the repository: readers and
--   writers of bytes, a checksum and a keyed digest, as a record of operations with their documented
--   behaviour. Net/Example is an instance to run the model with.
-- - Stun, for src/ice/stun.cpp and stun.h. Data has the messages and attributes, Codes the types of
--   messages, Write the writer with add_message_integrity and add_fingerprint, Read the parser, and
--   Check the tests of a received packet. A packet is the list of its bytes. StunMessage::read has its
--   attribute loop on fuel, the length of the packet, of which each round takes at least four bytes.
-- - Ice.Connection, for src/ice/ice_connection.cpp: the state of a pair as a record, each method as a
--   function that gives the new state and the signals emitted. Times are milliseconds since boot. A
--   pair that has been deleted is the case `freed` of Update.
-- - Ice.Controller, for src/ice/ice_controller.cpp: pairs are named by their addresses, and a store
--   gives the object at an address. The sort is a parameter with the promises of std::stable_sort;
--   Ice/Controller/Insertion is a sort that keeps them.
-- - Ice.Channel, for src/ice/ice_transport_channel.cpp: the flags and the state of a channel, its
--   selected connection next to that of the controller, and what it does when a connection goes away.
-- - Ice.Requests, for src/ice/stun_request.cpp: the requests that wait for a response, and which of the
--   objects exist; deleting one twice is a result of its own.
-- - Ice.Port, for src/ice/udp_port.cpp: what a port makes of a packet, with its error responses.
--   Ping has the request of ConnectionRequest::prepare and its answer.
--   Ice.Reception puts a connection, its port and its requests together: IceConnection::on_read_packet.
--   Its Writable.Pinged follows a ping from one connection over another and back.
-- - Pc.Dtls, for src/pc/dtls_transport.cpp: the handshake as a state, with a log of what it signals.
--   Pc.Ssl has what it takes from rtc::SSLStreamAdapter. The loop that reads from the adapter is on
--   fuel, the number of messages that the adapter holds; the walk over the records of a packet is on
--   the length of the packet.
-- - Pc.Srtp, for src/pc/srtp_session.cpp, srtp_transport.cpp and dtls_srtp_transport.cpp: keys and
--   sessions, with libsrtp as a parameter; Packets has what is sent and passed on.
-- - Pc.ConnectionState, for TransportController::_update_state of src/pc/transport_controller.cpp.
-- - Stream, for src/stream/rtc_stream_manager.cpp: the tables of streams over a set of live objects.
-- - Rtp, for src/module/rtp_rtcp/rtp_utils.cpp: telling RTP from RTCP.
-- - Server, for the reads of a connection and the loop over its bytes in
--   src/server/signaling_worker.cpp, on fuel: three rounds are enough for a loop that ends. Framing has
--   one call of the loop, Framing.Flood and its child modules whole sequences of reads.
-- - Queue, for src/base/lock_free_queue.h, which takes requests from one thread to another: a heap of
--   nodes, and the steps of the two threads between the accesses to what they share. Trace has the runs
--   in every interleaving.
-- - Tests: runs at concrete inputs.
--
-- A uint16_t or uint32_t is a natural number with its wrap-around written out. Log lines, statistics
-- and memory allocation are left out. The order of memory of C++ is not modelled: a step sees all
-- writes of the steps before it. The event loop, sockets, the session descriptions, the timer of
-- pings, the rest of the servers with their threads and the code of other projects are not modelled.
pub mod Prelude
pub mod Net
pub mod Stun
pub mod Ice
pub mod Pc
pub mod Stream
pub mod Rtp
pub mod Server
pub mod Queue
mod Tests
