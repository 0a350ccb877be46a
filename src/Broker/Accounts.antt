-- ===== src/Broker/Accounts.antt =====
-- Accounts of the master server: what a name and an address have to look like, registering, logging in
-- with a password or a token, and logging out. From `gMasterPacketHandler` of src/master/MasterMain.cpp.
-- The database, the hashes, the random numbers and the clock are parameters.
use gip_multiplayer.Base.{
  ℕ, suc, ◌+◌, ◌-◌, Bool, true, false, ◌&&◌, ◌||◌, not, [], ◌∷◌, Option, none, some, ltb, leb, ◌==◌,
  if◌then◌else◌, length, drop,
}
use gip_multiplayer.Base.Text.{Text}

-- `std::tolower` and `std::isalnum` of the "C" locale.
unfoldable pub tolower : ℕ → ℕ
tolower c = if leb 65 c && leb c 90 then c + 32 else c

unfoldable pub isalnum : ℕ → Bool
isalnum c = leb 48 c && leb c 57 || (leb 65 c && leb c 90 || leb 97 c && leb c 122)

unfoldable pub lower : Text → Text
lower [] = []
lower (c ∷ cs) = tolower c ∷ lower cs

-- `text.find(c)`: where the first such byte is.
unfoldable pub find_byte : ℕ → Text → Option ℕ
find_byte b [] = none
find_byte b (c ∷ cs) =
    let rest = find_byte b cs in
    if c == b then some 0 else elim rest [ none ↦ none | some i ↦ some (suc i) ]

-- The dot is looked for from the `@` on, so its place is counted from there.
unfoldable pub is_valid_email : Text → Bool
is_valid_email email =
    if ltb (length email) 3 || ltb 100 (length email) then false else elim (find_byte 64 email) [
      | none ↦ false
      | some at ↦
          if at == 0 || at == length email - 1 then false else elim (find_byte 46 (drop at email)) [
            | none ↦ false
            | some dot ↦ not (at + dot == at + 1 || at + dot == length email - 1)
          ]
    ]

unfoldable pub name_bytes : Text → Bool
name_bytes [] = true
name_bytes (c ∷ cs) = (isalnum c || c == 95) && name_bytes cs

unfoldable pub is_valid_username : Text → Bool
is_valid_username username =
    if ltb (length username) 3 || ltb 20 (length username) then false else name_bytes username

-- A row of `USERS`, as the login reads it.
pub record User : Type 0 where
  pub id : ℕ
  pub username : Text
  pub password : Text
  pub salt : Text
  pub algo : Text

-- How an `INSERT INTO USERS` ends: the new row's id, a constraint that fails, or another error.
pub data Inserted : Type 0 where
  row_added : ℕ → Inserted
  constraint : Inserted
  failed_insert : Inserted

-- The database (`sqlite3`) by the statements that the handlers run, each of which may fail to be
-- prepared: `none`. The hashes are `HashPasswordPBKDF2`, `HashPasswordWithSalt` and SHA-256 in hex.
pub record Database : Type 1 where
  pub Db : Type 0
  pub select_user : Text → Db → Option (Option User)
  pub insert_user : Text → Text → Text → Text → Db → Option (Inserted × Db)
  pub upgrade_user : Text → Text → ℕ → Db → Db
  pub insert_session : ℕ → Text → Db → Option Db
  pub prune_sessions : Db → Db
  pub select_session : Text → Text → Text → Db → Option (Option (Text × ℕ))
  pub touch_session : Text → ℕ → Db → Db
  pub delete_session : Text → Text → Db → Db
  pub pbkdf2 : Text → Text → Text
  pub salted : Text → Text → Text
  pub sha256 : Text → Text
