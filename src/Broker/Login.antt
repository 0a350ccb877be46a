-- ===== src/Broker/Login.antt =====
-- The account handlers of `gMasterPacketHandler`, of src/master/MasterMain.cpp, over a database and the
-- limit on failed logins.
use gip_multiplayer.Base.{
  ℕ, Bool, true, false, ◌&&◌, ◌||◌, not, [], ◌∷◌, ◌++◌, Option, none, some, ◌==◌, if◌then◌else◌,
}
use gip_multiplayer.Base.Text.{Text, text_eq, to_string}
use gip_multiplayer.Master.{
  MasterUserLoginPacket, MasterUserLoginResPacket, MasterUserRegisterPacket,
  MasterUserRegisterResPacket, MasterUserTokenLoginPacket, MasterUserLogoutPacket,
}
use gip_multiplayer.Broker.{PeerSession}
use gip_multiplayer.Broker.Address.{before_colon}
use gip_multiplayer.Broker.Limiter.{Tracker, is_locked_out, record_failed_attempt, record_success}
use gip_multiplayer.Broker.Accounts.{
  lower, is_valid_email, is_valid_username, User, Inserted, Database,
}
use gip_multiplayer.Broker.Messages.{
  name_rules, bad_email, no_password, no_database, database_error, registered, exists, incorrect,
  logged_in, bad_token, auto_login, expired, locked_prefix,
}

unfoldable pub is_empty : Text → Bool
is_empty [] = true
is_empty (c ∷ cs) = false

-- "pbkdf2"
abbrev pub pbkdf2_algo : Text
pbkdf2_algo = 112 ∷ 98 ∷ 107 ∷ 100 ∷ 102 ∷ 50 ∷ []

abbrev pub refused : Text → MasterUserLoginResPacket
refused message = record { success = false; message = message; username = []; token = [] }

abbrev pub not_registered : Text → MasterUserRegisterResPacket
not_registered message = record { success = false; message = message; token = [] }

-- "Too many failed attempts. Locked out for ...s."
abbrev pub locked_message : ℕ → Text
locked_message seconds = locked_prefix ++ to_string seconds ++ 115 ∷ 46 ∷ []

module _ (d : Database) where
  -- `CreateSessionForUser`, with the token that was drawn; an id of a row is positive.
  unfoldable pub create_session : ℕ → Text → d.Db → Text × d.Db
  create_session user_id token db =
      if user_id == 0 then ([], db) else elim (d.insert_session user_id (d.sha256 token) db) [
        | none ↦ ([], db)
        | some db' ↦ (token, db')
      ]

  -- `OnPacket(gMasterUserRegisterPacket)`; the salt and the token are drawn.
  unfoldable pub register_user :
      Text
      → Text
      → MasterUserRegisterPacket
      → Option d.Db
      → Option d.Db × MasterUserRegisterResPacket
  register_user salt token p none =
      if not (is_valid_username p.username)
      then (none, not_registered name_rules)
      else if not (is_valid_email (lower p.email))
      then (none, not_registered bad_email)
      else if is_empty p.password
      then (none, not_registered no_password)
      else (none, not_registered no_database)
  register_user salt token p (some db) =
      let email = lower p.email in
      if not (is_valid_username p.username)
      then (some db, not_registered name_rules)
      else if not (is_valid_email email)
      then (some db, not_registered bad_email)
      else if is_empty p.password
      then (some db, not_registered no_password)
      else elim (d.insert_user p.username email (d.pbkdf2 p.password salt) salt db) [
        | none ↦ (some db, not_registered database_error)
        | some (Inserted.row_added id, db') ↦
            let made = create_session id token db' in
            (some made.1, record { success = true; message = registered; token = made.0 })
        | some (Inserted.constraint, db') ↦ (some db', not_registered exists)
        | some (Inserted.failed_insert, db') ↦ (some db', not_registered database_error)
      ]

  -- Whether a row is hashed as new rows are.
  unfoldable pub is_current : User → Bool
  is_current u = text_eq u.algo pbkdf2_algo && not (is_empty u.salt)

  unfoldable pub password_match : Text → User → Bool
  password_match password u =
      if is_current u
      then text_eq (d.pbkdf2 password u.salt) u.password
      else (text_eq (d.salted password u.salt) u.password || text_eq u.password password)
        || (text_eq (d.salted (d.sha256 password) u.salt) u.password
            || text_eq u.password (d.sha256 password))

  -- An old row that matched is written again with a new salt.
  unfoldable pub upgraded : Text → Text → User → d.Db → d.Db
  upgraded salt password u db =
      if is_current u then db else d.upgrade_user (d.pbkdf2 password salt) salt u.id db

  -- `OnPacket(gMasterUserLoginPacket)`, with the time, and the salt and the token that are drawn.
  unfoldable pub login :
      ℕ
      → Text
      → Text
      → PeerSession
      → MasterUserLoginPacket
      → Tracker × Option d.Db
      → (Tracker × Option d.Db) × MasterUserLoginResPacket
  login now salt token peer p (limits, db) =
      let ip = before_colon peer.readable in
      let counted = record_failed_attempt now ip limits in
      elim (is_locked_out now ip limits) [
        | some seconds ↦ ((limits, db), refused (locked_message seconds))
        | none ↦
            if is_empty (lower p.email) || is_empty p.password
            then ((counted, db), refused incorrect)
            else elim db [
              | none ↦ ((limits, none), refused no_database)
              | some rows ↦ elim (d.select_user (lower p.email) rows) [
                | none ↦ ((limits, some rows), refused database_error)
                | some none ↦ ((counted, some rows), refused incorrect)
                | some (some u) ↦
                    let made = create_session u.id token (upgraded salt p.password u rows) in
                    let welcome : MasterUserLoginResPacket = record {
                      success = true;
                      message = logged_in;
                      username = u.username;
                      token = made.0;
                    } in
                    if password_match p.password u
                    then ((record_success ip limits, some made.1), welcome)
                    else ((counted, some rows), refused incorrect)
              ]
            ]
      ]

  -- `OnPacket(gMasterUserTokenLoginPacket)`.
  unfoldable pub token_login :
      MasterUserTokenLoginPacket → Option d.Db → Option d.Db × MasterUserLoginResPacket
  token_login p db =
      if is_empty (lower p.email) || is_empty p.token then (db, refused bad_token) else elim db [
        | none ↦ (none, refused no_database)
        | some all ↦
            let rows = d.prune_sessions all in
            let hash = d.sha256 p.token in
            elim (d.select_session (lower p.email) hash p.token rows) [
              | none ↦ (some rows, refused database_error)
              | some none ↦ (some rows, refused expired)
              | some (some (username, id)) ↦ (
                some (d.touch_session hash id rows),
                record {
                  success = true;
                  message = auto_login;
                  username = username;
                  token = p.token;
                },
              )
            ]
      ]

  -- `OnPacket(gMasterUserLogoutPacket)`.
  unfoldable pub logout : MasterUserLogoutPacket → Option d.Db → Option d.Db
  logout p none = none
  logout p (some db) =
      if is_empty p.token then some db else some (d.delete_session (d.sha256 p.token) p.token db)
