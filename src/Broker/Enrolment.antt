-- ===== src/Broker/Enrolment.antt =====
-- A new account can log in: `OnPacket` of a register packet and of a login packet, one after the other,
-- over a database that does what it documents. About src/master/MasterMain.cpp.
use gip_multiplayer.Base.{ℕ, ◌≡◌, false, some}
use gip_multiplayer.Base.Text.{Text}
use gip_multiplayer.Master.{MasterUserRegisterPacket}
use gip_multiplayer.Broker.Accounts.{lower, Inserted, Database}
use gip_multiplayer.Broker.Login.{is_empty, pbkdf2_algo, create_session, register_user}

-- What the database promises of the statements: an inserted account is selected by its address, and a
-- session changes no account.
pub record DatabaseLaws (d : Database) : Type 0 where
  pub insert-select :
      (username email hash salt : Text) (db after : d.Db) (id : ℕ)
      → d.insert_user username email hash salt db ≡ some (Inserted.row_added id, after)
      → d.select_user email after
        ≡ some (
            some (record {
              id = id;
              username = username;
              password = hash;
              salt = salt;
              algo = pbkdf2_algo;
            }))
  pub session-select :
      (email hash : Text) (db after : d.Db) (id : ℕ)
      → d.insert_session id hash db ≡ some after
      → d.select_user email after ≡ d.select_user email db

module _ (d : Database) where
  record Stored (salt token : Text) (p : MasterUserRegisterPacket) (db : d.Db) : Type 0 where
    id : ℕ
    after : d.Db
    inserted :
        d.insert_user p.username (lower p.email) (d.pbkdf2 p.password salt) salt db
        ≡ some (Inserted.row_added id, after)
    left : (register_user d salt token p (some db)).0 ≡ some (create_session d id token after).1
    named : is_empty (lower p.email) ≡ false
    has_password : is_empty p.password ≡ false
