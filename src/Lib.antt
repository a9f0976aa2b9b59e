-- ===== src/Lib.antt =====
-- ClusterTalk: a chat service of several nodes behind a load balancer. A client speaks frames
-- (protocol/) to the balancer (ingress/), which relays them to a node (node/). A node keeps the
-- state of each session in memory, with an outbox of unacknowledged messages, and writes it
-- through a queue to SQLite, from which it is recovered after a crash.
--
-- Prelude: Boolean tests, lists, dicts and sets in Python's order, stable sorting, results.
--
-- Protocol, protocol/framing.py. MessageType is the enum, Framing the codec (encode_frame,
--   read_raw_frame, decode_frame_body, read_frame). A stream is the list of the bytes that arrive
--   before the peer closes it. orjson is the parameter Orjson, of which it is assumed that what
--   is dumped is not empty and loads back. Exceptions are values of FrameError.
-- Node.SessionState, node/session_state.py, the class of the same name, one function for each
--   method. Times are ticks. The loop of mark_inbound_processed runs on fuel, the size of its set,
--   each round of which takes an element out.
-- Node.DedupCache, node/dedup_cache.py, the class of the same name.
-- Node.Persistence, node/persistence.py. A table is a dict by its primary key, a statement of
--   _apply_batch is apply_op, a round of _run_writer_loop is writer_round; the environment says in
--   each round whether the flush interval has elapsed and whether SQLite commits. Reads has the
--   queries, which see the database and not the queue.
-- Node.SessionManager, node/session_manager.py, the class of the same name over a store: memory
--   and store change together, and the store may lag behind memory by what is queued. Mirror says
--   when the store follows a live session, Durability that it does through the operations,
--   Recovery what a new process reads back, Survival what becomes of a message from send_message
--   through a crash.
-- Node.AuthStore, node/auth_store.py: the accounts, one transaction for each call.
-- Node.Mesh, node/mesh.py: PeerManager of one node, relaying and session queries. What is handed to
--   a writer is recorded; uuid4 is an argument. Link is one link from its handshake to its teardown
--   (_do_peer_handshake, _peer_read_loop, _heartbeat_loop, _run_handshake_and_serve), fed with the
--   list of what happens to its connection, Connect the loop that dials a peer, Registry all links of
--   a node at once. A frame may be no JSON or misshapen, and the callbacks may raise. Network
--   composes the managers of several nodes: what a node has handed to its writers arrives at the
--   other nodes in any order or gets lost, and the node at the far end of a writer is a parameter.
-- Node.Password, node/server.py: _hash_password and _verify_password. PBKDF2 is a parameter.
-- Node.Server, node/server.py: ChatNode. Its parent module has the state, the frames with the
--   fields that are read, and Handler, in which a handler returns or raises and changes the node
--   either way. Auth is _auth_gate and what it calls, Chat the handlers of _read_loop with broadcast
--   and replay, Connection the life of a connection, the retry loop and the evictions, Machine the
--   events in any order. Each handler runs from one frame to the next without interleaving. Clocks,
--   uuids, salts and the answer of the mesh to a query are given in a Moment; orjson, PBKDF2 and
--   uuid5 in Services. A write to a writer whose connection is lost raises, any other succeeds.
--   Logic, Steady and Chat.Quiet are the reasoning on handlers.
-- Ingress.Address and Ingress.LoadBalancer, ingress/lb.py. Backends are shared objects, so they
--   stand on a heap and are named by references. Routing is about _pick_backend, Registration about
--   nodes that come and go and their health, Clients about the clients shown to the operator, Admin
--   about the operator's commands, Handshake about _handle_client up to the relay of bytes, Relay
--   about that relay and who is cut off from it. A function says which backends accept a
--   connection; the loop over backends runs on fuel, one unit for each routable backend of the
--   pool. Redis is a parameter whose commands may fail; nothing is assumed of it. Callbacks for the
--   event loop are recorded, and Relay runs them. Snapshot has admin_snapshot. The digits of a port
--   are computed on fuel, one unit more than the number, which is more than it has digits.
-- Ingress.AdminServer, ingress/admin_server.py: do_GET and do_POST over the operations of the balancer,
--   and NodeSpawner. Pool and Foreign are about the servers that stay in the pool. Python's int, and
--   what the system gives for a new process, are arguments.
-- Ingress.WsBridge, ingress/ws_bridge.py: the codec of the bridge (Codec compares it with that of the
--   nodes), ws_json_to_frame, and the two directions of a BridgeSession, each by itself: Stream is
--   about the one to the browser. JSON values are the parameter Values. The loop of _tcp_to_browser
--   runs on fuel, one round for each frame and one for the end.
--
-- Not modelled: of node/server.py start, stop and the registration at the balancer, and timeouts of
-- writes; of ingress/ws_bridge.py BridgeSession.run and the WebSocket server;
-- of ingress/admin_server.py the HTTP server and its headers; of node/mesh.py start and stop; of ingress/lb.py the end of
-- _handle_client, timers, sockets and the uptime in admin_snapshot; of node/persistence.py
-- save_message_log_by_key and load_message_history_for_room, which nothing calls; start-up scripts
-- and the browser client. The expiry of sticky keys in Redis is up to the parameter.
pub mod Prelude
pub mod Protocol
pub mod Node
pub mod Ingress
