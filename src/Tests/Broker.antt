-- ===== src/Tests/Broker.antt =====
-- The master server at concrete inputs: whole seconds for ages, pairs for candidates, and a table of
-- accounts for the database.
use gip_multiplayer.Base.{
  ℕ, ◌+◌, ◌≡◌, refl, true, false, List, [], ◌∷◌, Option, none, some, ltb, ◌↔◌, ◌==◌, if◌then◌else◌,
  All, arith,
}
use gip_multiplayer.Base.Text.{Text, text_eq}
use gip_multiplayer.Master.{MasterUserLoginPacket, MasterUserRegisterPacket}
use gip_multiplayer.Broker.{
  ServerInfo, MasterRegisterPacket, MasterGetListPacket, PeerSession, Traversal, Age,
}
use gip_multiplayer.Broker.Address.{ℤ}
use gip_multiplayer.Broker.Codes.{is_taken}
use gip_multiplayer.Broker.Rooms.{find_server, actual_ip, register, Request, run}
use gip_multiplayer.Broker.Table.{DistinctIps, DistinctCodes}
use gip_multiplayer.Broker.Distinct.{DistinctIps-run, DistinctCodes-register}
use gip_multiplayer.Broker.Refine.{Steps, run-Steps}
use gip_multiplayer.Broker.View.{view}
use gip_multiplayer.Broker.Expiry.{total_age, silent_host_leaves}
use gip_multiplayer.Broker.Listing.{get_list, Shown, get_list-Shown}
use gip_multiplayer.Broker.Offer.{build_offer, reflexive_part, Offer, build_offer-Offer}
use gip_multiplayer.Broker.Punch.{find_target, get_list-find_target}
use gip_multiplayer.Broker.Limiter.{tracked, is_locked_out}
use gip_multiplayer.Broker.Attempts.{InMinute, record_failures, ten_failures_lock}
use gip_multiplayer.Broker.Accounts.{User, Inserted, Database}
use gip_multiplayer.Broker.Login.{login, pbkdf2_algo}
use gip_multiplayer.Broker.Credentials.{Admitted, login_iff}

-- A candidate is its kind, 0 for a host's and 1 for a reflexive one, and its address.
abbrev pairs : Traversal
pairs = record {
  C = ℕ × Text;
  is_reflexive = λ c. c.0 == 1;
  is_host = λ c. c.0 == 0;
  has_address = λ c. true;
  address = λ c. c.1;
  reflexive_at = λ ip port. some (1, ip);
  max_candidates = 8;
}

abbrev ages : Age
ages = record { F = ℕ; fresh = 0; plus = λ a b. a + b; past_30 = ltb 30 }

abbrev Row : Type 0
Row = ServerInfo (ℕ × Text) ℕ

abbrev any_number : Text → Option ℤ
any_number t = some (ℤ.pos 7)

-- "a", then "a:" and a port as one byte.
abbrev host_peer : PeerSession
host_peer = record {
  session = 4;
  readable = 97 ∷ 58 ∷ 49 ∷ [];
  with_port = λ port. 97 ∷ 58 ∷ port ∷ [];
}

abbrev other_peer : PeerSession
other_peer = record {
  session = 5;
  readable = 98 ∷ 58 ∷ 49 ∷ [];
  with_port = λ port. 98 ∷ 58 ∷ port ∷ [];
}

abbrev announce : MasterRegisterPacket (ℕ × Text)
announce = record {
  ip = 120 ∷ 58 ∷ 55 ∷ [];
  name = 82 ∷ [];
  current_players = 1;
  max_players = 8;
  match_state = 0;
  is_private = false;
  has_password = false;
  is_dedicated = true;
  use_p2p = true;
  candidates = (0, 99 ∷ []) ∷ (1, 97 ∷ []) ∷ [];
}

abbrev evening : List (Request pairs ages)
evening =
    Request.register_packet (λ i. i) host_peer announce
    ∷ Request.register_packet (λ i. i + 1) other_peer announce
    ∷ Request.frame (λ s. true) 20
    ∷ Request.heartbeat_packet host_peer (record { ip = 120 ∷ 58 ∷ 55 ∷ [] })
    ∷ Request.frame (λ s. s == 4) 20
    ∷ []

DistinctIps-run_example : DistinctIps (run pairs ages any_number evening [])
DistinctIps-run_example = DistinctIps-run pairs ages any_number evening [] tt

DistinctCodes-register_example :
    DistinctCodes (register pairs ages any_number (λ i. i) host_peer announce []).0
unfolding is_taken
DistinctCodes-register_example =
    DistinctCodes-register pairs ages any_number (λ i. i) host_peer announce [] 0 (omega arith) refl
      tt

run-Steps_example :
    Steps pairs ages any_number evening (view []) (view (run pairs ages any_number evening []))
run-Steps_example = run-Steps pairs ages any_number evening [] tt

abbrev row : Row
row = record {
  ip = 97 ∷ 58 ∷ 55 ∷ [];
  peer_candidates = (97 ∷ 58 ∷ 55 ∷ []) ∷ (99 ∷ []) ∷ [];
  candidates = (0, 99 ∷ []) ∷ [];
  name = 82 ∷ [];
  current_players = 1;
  max_players = 8;
  match_state = 0;
  last_heartbeat = 5;
  is_private = false;
  has_password = false;
  is_dedicated = true;
  use_p2p = true;
  room_code = 65 ∷ [];
  host_session = 4;
}

-- Only the other host sends.
abbrev others : List (Request pairs ages)
others =
    Request.frame (λ s. true) 20
    ∷ Request.register_packet (λ i. i) other_peer announce
    ∷ Request.heartbeat_packet other_peer (record { ip = 120 ∷ 58 ∷ 55 ∷ [] })
    ∷ Request.frame (λ s. true) 6
    ∷ []

silent_host_leaves_example :
    find_server (97 ∷ 58 ∷ 55 ∷ []) (run pairs ages any_number others (row ∷ [])) ≡ none
unfolding find_server total_age actual_ip
silent_host_leaves_example =
    silent_host_leaves pairs ages any_number (97 ∷ 58 ∷ 55 ∷ []) others (row ∷ []) row (refl, tt)
      (tt, (refl, (refl, (tt, tt)))) refl refl refl

abbrev everything : MasterGetListPacket
everything = record { match_state_filter = 0 }

get_list-Shown_example : All (Shown 0) (get_list host_peer everything (row ∷ []))
get_list-Shown_example = get_list-Shown host_peer everything (row ∷ [])

get_list-find_target_example :
    All
      (λ s. (r : Row) × (find_target s.ip (row ∷ []) ≡ some r))
      (get_list host_peer everything (row ∷ []))
get_list-find_target_example = get_list-find_target host_peer everything (row ∷ [])

build_offer-Offer_example :
    Offer pairs
      (reflexive_part pairs (98 ∷ []) 7 announce.candidates)
      announce.candidates
      (some (2, 100 ∷ []))
      (build_offer pairs (98 ∷ []) 7 announce.candidates (some (2, 100 ∷ [])))
build_offer-Offer_example =
    build_offer-Offer pairs (98 ∷ []) 7 announce.candidates (some (2, 100 ∷ [])) (omega arith)

abbrev tries : List ℕ
tries = 0 ∷ 1 ∷ 2 ∷ 3 ∷ 4 ∷ 5 ∷ 6 ∷ 7 ∷ 8 ∷ 60000000000 ∷ []

abbrev in_minute : All (InMinute 0) tries
in_minute = (
  (omega arith, omega arith),
  (
    (omega arith, omega arith),
    (
      (omega arith, omega arith),
      (
        (omega arith, omega arith),
        (
          (omega arith, omega arith),
          (
            (omega arith, omega arith),
            (
              (omega arith, omega arith),
              (
                (omega arith, omega arith),
                ((omega arith, omega arith), ((omega arith, omega arith), tt)),
              ),
            ),
          ),
        ),
      ),
    ),
  ),
)

ten_failures_lock_example :
    ((seconds : ℕ) × (is_locked_out 299000000000 (97 ∷ []) (record_failures (97 ∷ []) tries [])
        ≡ some seconds))
    × (tracked (98 ∷ []) (record_failures (97 ∷ []) tries []) ≡ tracked (98 ∷ []) [])
unfolding tracked
ten_failures_lock_example =
    ten_failures_lock (97 ∷ []) (98 ∷ []) 0 299000000000 tries [] refl refl in_minute (omega arith)
      refl

-- Accounts by their address; a statement never fails, and passwords are not hashed.
abbrev find_account : Text → List (Text × User) → Option User
find_account email [] = none
find_account email ((e, u) ∷ db) = if text_eq e email then some u else find_account email db

abbrev accounts : Database
accounts = record {
  Db = List (Text × User);
  select_user = λ email db. some (find_account email db);
  insert_user = λ username email hash salt db. some (
    Inserted.row_added 1,
    (
      email,
      record { id = 1; username = username; password = hash; salt = salt; algo = pbkdf2_algo },
    )
        ∷ db,
  );
  upgrade_user = λ hash salt id db. db;
  insert_session = λ id hash db. some db;
  prune_sessions = λ db. db;
  select_session = λ email hash token db. some none;
  touch_session = λ hash id db. db;
  delete_session = λ hash token db. db;
  pbkdf2 = λ password salt. password;
  salted = λ password salt. password;
  sha256 = λ text. text;
}

abbrev row_id : Inserted → ℕ
row_id (Inserted.row_added id) = id
row_id Inserted.constraint = 0
row_id Inserted.failed_insert = 0

abbrev account : ℕ → Text → Text → Text → User
account id username hash salt = record {
  id = id;
  username = username;
  password = hash;
  salt = salt;
  algo = pbkdf2_algo;
}

abbrev sign_up : MasterUserRegisterPacket
sign_up = record {
  username = 97 ∷ 98 ∷ 99 ∷ [];
  email = 97 ∷ 64 ∷ 98 ∷ 46 ∷ 99 ∷ [];
  password = 112 ∷ [];
}

abbrev sign_in : MasterUserLoginPacket
sign_in = record { email = 65 ∷ 64 ∷ 66 ∷ 46 ∷ 67 ∷ []; password = 112 ∷ [] }

abbrev members : List (Text × User)
members = (97 ∷ 64 ∷ 98 ∷ 46 ∷ 99 ∷ [], account 1 (97 ∷ []) (112 ∷ []) (6 ∷ [])) ∷ []

login_iff_example :
    ((login accounts 9 (8 ∷ []) (7 ∷ []) host_peer sign_in ([], some members)).1.success ≡ true)
    ↔ Admitted accounts 9 host_peer sign_in [] (some members)
login_iff_example = login_iff accounts 9 (8 ∷ []) (7 ∷ []) host_peer sign_in [] (some members)
