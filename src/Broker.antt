-- ===== src/Broker.antt =====
-- The room table of the master server: its rows, the messages about rooms that carry candidates, and
-- the peer that a handler answers. From src/master/gMasterPackets.h and src/master/MasterMain.cpp.
pub mod Address
pub mod Codes
pub mod Rooms
pub mod Table
pub mod Distinct
pub mod View
pub mod Refine
pub mod Expiry
pub mod Listing
pub mod Offer
pub mod Punch
pub mod Limiter
pub mod Attempts
pub mod Accounts
pub mod Messages
pub mod Login
pub mod Credentials
pub mod Enrolment
use gip_multiplayer.Base.{ℕ, Bool, List, Option}
use gip_multiplayer.Base.Text.{Text}

-- What `gServerInfo` is built of: `C` is the candidate of the punching library, `F` the float of an
-- age. The state of the match is the 32-bit word of an `int`; a session is known by its number.
module _ (C F : Type 0) where
  pub record ServerInfo : Type 0 where
    pub ip : Text
    pub peer_candidates : List Text
    pub candidates : List C
    pub name : Text
    pub current_players : ℕ
    pub max_players : ℕ
    pub match_state : ℕ
    pub last_heartbeat : F
    pub is_private : Bool
    pub has_password : Bool
    pub is_dedicated : Bool
    pub use_p2p : Bool
    pub room_code : Text
    pub host_session : ℕ

module _ (C : Type 0) where
  pub record MasterRegisterPacket : Type 0 where
    pub ip : Text
    pub name : Text
    pub current_players : ℕ
    pub max_players : ℕ
    pub match_state : ℕ
    pub is_private : Bool
    pub has_password : Bool
    pub is_dedicated : Bool
    pub use_p2p : Bool
    pub candidates : List C

  pub record MasterPunchRequestPacket : Type 0 where
    pub target_identifier : Text
    pub candidates : List C
    pub client_game_port : ℕ

  pub record MasterPunchExecutePacket : Type 0 where
    pub candidates : List C
    pub is_host : Bool

pub record MasterGetListPacket : Type 0 where
  pub match_state_filter : ℕ

pub record MasterQueryRoomResPacket : Type 0 where
  pub room_code : Text
  pub found : Bool
  pub name : Text
  pub current_players : ℕ
  pub max_players : ℕ
  pub has_password : Bool
  pub is_dedicated : Bool
  pub use_p2p : Bool
  pub ip : Text

-- The session that a handler answers (`znet::PeerSession`): its number, its remote address, and that
-- address with another port.
pub record PeerSession : Type 0 where
  pub session : ℕ
  pub readable : Text
  pub with_port : ℕ → Text

-- The candidates of the punching library (`znet::p2p::Candidate`) and `std::stoi`.
pub record Traversal : Type 1 where
  pub C : Type 0
  pub is_reflexive : C → Bool
  pub is_host : C → Bool
  pub has_address : C → Bool
  pub address : C → Text
  pub reflexive_at : Text → ℕ → Option C
  pub max_candidates : ℕ

-- The age of a row (`float`): a fresh one, the sum, and whether it is past 30 seconds.
pub record Age : Type 1 where
  pub F : Type 0
  pub fresh : F
  pub plus : F → F → F
  pub past_30 : F → Bool
