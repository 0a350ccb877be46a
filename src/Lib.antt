-- ===== src/Lib.antt =====
-- gipMultiplayer: a peer-hosted multiplayer layer with a lobby, chat and team voice.
--
-- A host keeps the room. Packets come in over the znet library, are deserialized by the classes of
-- src/GamePackets.h, queued, and handled one by one by `GameBackend::onPacketReceived` on the main
-- thread; the host answers with the state of the lobby, relays chat, and routes voice. Voice packets
-- go through `gTeamVoiceServer`, which keeps a table of peers and publishes to each peer, by a
-- control packet, the generation it has to speak under. On the receiving side a worker puts voice
-- frames into a jitter buffer for each speaker and plays them out every twenty milliseconds. Hosts
-- announce their rooms to a master server, which lists them, brings clients to hosts, and keeps the
-- accounts of players.
--
-- - Base: Boolean tests, lists, maps as lists of entries, texts as lists of byte values with the
--   decimal numerals of `std::to_string`, and the wrapping arithmetic of 32 and 64 bits.
-- - Wire: `znet::Buffer` is not part of the repository. Its operations are the parameters `Buffer` and
--   `Stream`, and what is relied on are the records `Laws` and `StreamLaws`: writes append, reads take
--   from the front, and a pending error is reported once. Wire/Bytes and Wire/StreamBytes meet them.
-- - Voice/Packets: src/voice/gTeamVoicePackets.h and .cpp, with `gValidate...` as `validate_...` and
--   each `SerializeTyped` and `DeserializeTyped` as `serialize_...` and `deserialize_...`; a null result
--   is `err` with the error that was reported, or `null` where none was.
-- - Voice/Server: src/voice/gTeamVoiceServer.h and .cpp. `Control` has `setPeerState` and
--   `clearPeerState`, each split at its send: what other threads do to the table meanwhile is an
--   argument. `Relay` has `handleVoicePacket` and `consumeRate`. Doubles are a parameter.
-- - Voice/Receiver: `addRemoteFrame`, `resetSpeaker`, `processIncoming`, `cleanupSpeakers`, and a
--   speaker's turn of `mixOneFrame`, of src/audio/gVoiceAudioProcessor.cpp. The results of the Opus
--   codec and the clock are arguments.
-- - Lobby: `onPacketReceived`, `shouldDisplayChat`, `allowChatRate` and the clocks of `update` of
--   src/GameBackend.cpp, the clocks in `Timers`, and `relayChat`, `broadcast`, `sendToPlayer` and
--   `kickPlayer` of src/GameBackendLocal.cpp. What a handler does outside its state is a list of events,
--   in order. Floats are a parameter.
-- - Chat: `ChatManager` of src/chat/ChatManager.h and .cpp. A session of it is a list of steps.
-- - Master: the messages of src/master/gMasterPackets.h that carry plain fields.
-- - Broker: src/master/MasterMain.cpp, the master server. `Rooms` has the room table, with `register`,
--   `heartbeat` and `update` for the two handlers and the frame; `Listing`, `Punch` and `Offer` have the
--   list, the punch request and `BuildOffer`; `Limiter` is `RateLimiter`; `Login` has the account
--   handlers. Ages are a parameter, and so are `std::stoi`, the candidates of the punching library, the
--   relay's allocation, the database by its statements, the hashes, and the numbers that are drawn. A
--   database that could not be opened is `none`. Text is lowered and classed as in the "C" locale.
-- - Manager: src/NetworkManager.cpp. A join's thread ends by a step of its own, in any order.
-- - Audio: src/audio/gVoiceAudioProcessor.cpp around the receiver. `Queue` is `SpscQueue`, whose atomic
--   accesses are steps that interleave; `Ring` is `SampleRingBuffer`, with `popPlayback`; the slots of
--   both are a function of their place. `Capture` has `pushCaptured`; `Uplink` has `encodeFrame`,
--   `popOutgoingPacket`, `pushIncomingPacket` and the setters, each call as one step, with the codec as
--   a parameter.
-- - Game: src/GamePackets.h, the registration of its serializers in src/GameBackendLocal.cpp, and, in
--   Game/Session, the `ServerPacketHandler` of that file, which queues what a connection sends.
-- - Tests: runs, and the theorems at concrete inputs.
--
-- Maps of the source are lists of entries, in any order of iteration. Counters of 32 and 64 bits
-- wrap. The search for a free name, `free_name`, runs on fuel: two rounds more than there are players,
-- which is enough, since two numbered names never agree and each player takes at most one. The loop
-- of `pushCaptured` runs on the number of samples as fuel, and each turn copies one at least; the
-- draws of a room code run on their 32 attempts. All other loops are structural recursion.
--
-- Not modelled: the znet library, sockets and punching, the engine's scene nodes and audio devices,
-- the Opus codec, mutexes other than by what may happen between two locked regions, the start of the
-- master server and its log, the worker loop of voice and its mixing, the client's backend, and the
-- synchronization of nodes.
pub mod Base
pub mod Wire
pub mod Voice
pub mod Lobby
pub mod Game
pub mod Chat
pub mod Master
pub mod Broker
pub mod Manager
pub mod Audio
pub mod Tests
