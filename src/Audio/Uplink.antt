-- ===== src/Audio/Uplink.antt =====
-- The frames on their way out and in, and what the game sets: `encodeFrame`, `popOutgoingPacket`,
-- `pushIncomingPacket`, and the session and capture epochs of src/audio/gVoiceAudioProcessor.cpp. A
-- call is a step here; the codec is a parameter.
use gip_multiplayer.Base.{
  ℕ, ◌%◌, Bool, true, false, ◌&&◌, ◌||◌, not, List, [], ◌∷◌, ◌++◌, Option, none, some, leb, ◌==◌,
  ◌!=◌, if◌then◌else◌, bit_or, length, drop, add64,
}
use gip_multiplayer.Voice.Packets.{
  UplinkPacket, DownlinkPacket, PacketError, protocol_version, flag_none, flag_stream_start,
  flag_discontinuity, validate_downlink_packet,
}
use gip_multiplayer.Voice.Receiver.{RemoteFrame}
use gip_multiplayer.Audio.Capture.{PcmFrame}

pub record EncodedFrame : Type 0 where
  pub flags : ℕ
  pub session_epoch : ℕ
  pub capture_epoch : ℕ
  pub session_id : ℕ
  pub membership_generation : ℕ
  pub stream_generation : ℕ
  pub sequence : ℕ
  pub sample_position : ℕ
  pub payload : List ℕ

-- The members of `State` that these calls share, with the two bounds of the configuration.
pub record Processor : Type 0 where
  pub outgoing_packets : ℕ
  pub incoming_packets : ℕ
  pub running : Bool
  pub enabled : Bool
  pub transmitting : Bool
  pub local_muted : Bool
  pub session_id : ℕ
  pub membership_generation : ℕ
  pub local_player_id : ℕ
  pub session_epoch : ℕ
  pub capture_epoch : ℕ
  pub outgoing : List EncodedFrame
  pub incoming : List RemoteFrame
  pub playback_clear_requested : Bool
  pub encoded_packets : ℕ
  pub encode_errors : ℕ
  pub outgoing_queue_drops : ℕ
  pub received_packets : ℕ
  pub received_bytes : ℕ
  pub incoming_queue_drops : ℕ

unfoldable pub capture_active : Processor → Bool
capture_active s =
    (s.enabled && s.transmitting)
    && (not s.local_muted && (s.session_id != 0 && s.membership_generation != 0))

-- `setEnabled`: the session epoch is odd while the change goes on, and even again after it.
unfoldable pub set_enabled : Bool → Processor → Processor
set_enabled enabled s =
    let changed = record s {
      enabled = enabled;
      session_epoch = add64 (add64 s.session_epoch 1) 1;
      capture_epoch = add64 s.capture_epoch 1;
      outgoing = [];
      incoming = [];
      playback_clear_requested = true;
    } in
    elim s.enabled [
      | true ↦ if enabled then s else changed
      | false ↦ if enabled then changed else s
    ]

unfoldable pub set_transmitting : Bool → Processor → Processor
set_transmitting transmitting s =
    let changed = record s {
      transmitting = transmitting;
      capture_epoch = add64 s.capture_epoch 1;
      outgoing = [];
    } in
    elim s.transmitting [
      | true ↦ if transmitting then s else changed
      | false ↦ if transmitting then changed else s
    ]

unfoldable pub set_local_muted : Bool → Processor → Processor
set_local_muted muted s =
    let changed = record s {
      local_muted = muted;
      capture_epoch = add64 s.capture_epoch 1;
      outgoing = [];
    } in
    elim s.local_muted [
      | true ↦ if muted then s else changed
      | false ↦ if muted then changed else s
    ]

-- `setSession`, without the speakers' controls.
unfoldable pub set_session : ℕ → ℕ → ℕ → Processor → Processor
set_session session_id membership_generation local_player_id s = record s {
  session_id = session_id;
  membership_generation = membership_generation;
  local_player_id = local_player_id;
  session_epoch = add64 (add64 s.session_epoch 1) 1;
  capture_epoch = add64 s.capture_epoch 1;
  outgoing = [];
  incoming = [];
  playback_clear_requested = true;
}

unfoldable pub clear_session : Processor → Processor
clear_session s = set_session 0 0 0 s

-- A full queue loses its oldest packet, and the next one in it tells of the gap.
unfoldable pub mark_front : EncodedFrame → List EncodedFrame → List EncodedFrame
mark_front encoded [] = record encoded { flags = bit_or encoded.flags flag_discontinuity } ∷ []
mark_front encoded (f ∷ fs) =
    record f { flags = bit_or f.flags flag_discontinuity } ∷ fs ++ encoded ∷ []

unfoldable pub enqueue_outgoing : EncodedFrame → Processor → Processor
enqueue_outgoing encoded s =
    if leb s.outgoing_packets (length s.outgoing)
    then record s {
      outgoing = mark_front encoded (drop 1 s.outgoing);
      outgoing_queue_drops = add64 s.outgoing_queue_drops 1;
    }
    else record s { outgoing = s.outgoing ++ encoded ∷ [] }

module _ {S : Type 0} where
  unfoldable pub encoded_of : Processor → PcmFrame S → ℕ → ℕ → Bool → List ℕ → EncodedFrame
  encoded_of s frame stream_generation sequence first_packet payload =
      let flags = if first_packet then flag_stream_start else flag_none in
      record {
        flags = if frame.discontinuity then bit_or flags flag_discontinuity else flags;
        session_epoch = frame.session_epoch;
        capture_epoch = frame.capture_epoch;
        session_id = s.session_id;
        membership_generation = s.membership_generation;
        stream_generation = stream_generation;
        sequence = sequence;
        sample_position = frame.sample_position;
        payload = payload;
      }

  -- `encodeFrame`; the codec gives the bytes of the packet, or none where it fails.
  unfoldable pub encode_frame :
      (List S → Option (List ℕ)) → PcmFrame S → ℕ → ℕ → Bool → Processor → Processor
  encode_frame encode frame stream_generation sequence first_packet s =
      if stream_generation == 0
        || (frame.session_epoch != s.session_epoch || frame.capture_epoch != s.capture_epoch)
      then s
      else elim (encode frame.samples) [
        | none ↦ record s { encode_errors = add64 s.encode_errors 1 }
        | some payload ↦
            let sent =
              enqueue_outgoing (encoded_of s frame stream_generation sequence first_packet payload)
                s in
            if not s.running || not (capture_active s)
            then s
            else record sent { encoded_packets = add64 sent.encoded_packets 1 }
      ]

unfoldable pub is_current : Processor → EncodedFrame → Bool
is_current s f =
    (f.session_epoch == s.session_epoch && f.capture_epoch == s.capture_epoch)
    && (f.session_id == s.session_id && f.membership_generation == s.membership_generation)

unfoldable pub packet_of : EncodedFrame → UplinkPacket
packet_of f = record {
  version = protocol_version;
  flags = f.flags;
  session_id = f.session_id;
  membership_generation = f.membership_generation;
  stream_generation = f.stream_generation;
  sequence = f.sequence;
  sample_position = f.sample_position;
  payload = f.payload;
}

-- The loop of `popOutgoingPacket`: stale frames are thrown away.
unfoldable pub next_current :
    Processor → List EncodedFrame → Option EncodedFrame × List EncodedFrame
next_current s [] = (none, [])
next_current s (f ∷ fs) =
    let rest = next_current s fs in if is_current s f then (some f, fs) else rest

unfoldable pub pop_outgoing : Processor → Processor × Option UplinkPacket
pop_outgoing s =
    let r = next_current s s.outgoing in
    if not s.running || not (capture_active s)
    then (s, none)
    else (record s { outgoing = r.1 }, elim r.0 [ none ↦ none | some f ↦ some (packet_of f) ])

unfoldable pub remote_of : Processor → DownlinkPacket → RemoteFrame
remote_of s p = record {
  flags = p.flags;
  session_epoch = s.session_epoch;
  speaker_id = p.speaker_id;
  speaker_generation = p.speaker_generation;
  stream_generation = p.stream_generation;
  sequence = p.sequence;
  sample_position = p.sample_position;
  payload = p.payload;
}

unfoldable pub enqueue_incoming : RemoteFrame → Processor → Processor
enqueue_incoming remote s =
    if leb s.incoming_packets (length s.incoming)
    then record s {
      incoming = drop 1 s.incoming ++ remote ∷ [];
      incoming_queue_drops = add64 s.incoming_queue_drops 1;
    }
    else record s { incoming = s.incoming ++ remote ∷ [] }

-- Whether a packet is for this session and this player hears it.
unfoldable pub is_for : Processor → DownlinkPacket → Bool
is_for s p =
    (s.session_epoch % 2 == 0 && s.running)
    && (p.session_id == s.session_id
        && (p.recipient_generation == s.membership_generation
            && (p.speaker_id != s.local_player_id && s.enabled)))

unfoldable pub passes : DownlinkPacket → Bool
passes p = elim (validate_downlink_packet p) [ PacketError.none ↦ true | _ ↦ false ]

unfoldable pub push_incoming : DownlinkPacket → Processor → Processor × Bool
push_incoming p s =
    let queued = enqueue_incoming (remote_of s p) s in
    let counted = record queued {
      received_packets = add64 queued.received_packets 1;
      received_bytes = add64 queued.received_bytes (length p.payload);
    } in
    if passes p && is_for s p then (counted, true) else (s, false)

-- `processIncoming` takes the whole queue.
unfoldable pub take_incoming : Processor → Processor × List RemoteFrame
take_incoming s = (record s { incoming = [] }, s.incoming)

-- The calls of the game and of the worker.
pub data Call (S : Type 0) : Type 0 where
  enable : Bool → Call S
  transmit : Bool → Call S
  mute : Bool → Call S
  enter : ℕ → ℕ → ℕ → Call S
  encode : PcmFrame S → ℕ → ℕ → Bool → Call S
  pop : Call S
  push : DownlinkPacket → Call S
  take_all : Call S

unfoldable pub call : {S : Type 0} → (List S → Option (List ℕ)) → Call S → Processor → Processor
call codec (Call.enable b) s = set_enabled b s
call codec (Call.transmit b) s = set_transmitting b s
call codec (Call.mute b) s = set_local_muted b s
call codec (Call.enter id generation player) s = set_session id generation player s
call codec (Call.encode frame stream sequence first) s =
    encode_frame codec frame stream sequence first s
call codec Call.pop s = (pop_outgoing s).0
call codec (Call.push p) s = (push_incoming p s).0
call codec Call.take_all s = (take_incoming s).0

unfoldable pub calls :
    {S : Type 0} → (List S → Option (List ℕ)) → List (Call S) → Processor → Processor
calls codec [] s = s
calls codec (c ∷ cs) s = calls codec cs (call codec c s)
