-- ===== src/Broker/Credentials.antt =====
-- Who gets in: what a login that succeeds shows, and when a login succeeds. About the login handler of src/master/MasterMain.cpp.
use gip_multiplayer.Base.{
  ℕ, ◌≡◌, ◌↔◌, refl, ap, inl, inr, true, false, ◌||◌, Option, none, some, arith, Bool-cases,
  Option-cases,
}
use gip_multiplayer.Base.Text.{Text, text_eq, text_eq_sound, text_eq_refl}
use gip_multiplayer.Master.{MasterUserLoginPacket}
use gip_multiplayer.Broker.{PeerSession}
use gip_multiplayer.Broker.Address.{before_colon}
use gip_multiplayer.Broker.Limiter.{Tracker, is_locked_out, record_success}
use gip_multiplayer.Broker.Accounts.{lower, User, Database}
use gip_multiplayer.Broker.Login.{
  is_empty, pbkdf2_algo, is_current, create_session, password_match, upgraded, login,
}
use gip_multiplayer.Broker.Messages.{logged_in}

module _ (d : Database) where
  -- How a password may match a row: a row of the current kind has a salt and the slow hash of the
  -- password; an older row has the salted hash of the password or of its hash, or one of those two
  -- as it is.
  pub data Matches (password : Text) (u : User) : Type 0 where
    current :
        u.algo ≡ pbkdf2_algo
        → is_empty u.salt ≡ false
        → d.pbkdf2 password u.salt ≡ u.password
        → Matches password u
    old_salted : is_current d u ≡ false → d.salted password u.salt ≡ u.password → Matches password u
    old_plain : is_current d u ≡ false → u.password ≡ password → Matches password u
    old_hashed_salted :
        is_current d u ≡ false
        → d.salted (d.sha256 password) u.salt ≡ u.password
        → Matches password u
    old_hashed : is_current d u ≡ false → u.password ≡ d.sha256 password → Matches password u

  password_match-Matches :
      (password : Text) (u : User) → password_match d password u ≡ true → Matches password u
  unfolding password_match is_current
  password_match-Matches password u h = elim (Bool-cases (is_current d u)) [
    | inl b ↦
        Matches.current (text_eq_sound u.algo pbkdf2_algo (ground arith)) (ground arith)
          (text_eq_sound (d.pbkdf2 password u.salt) u.password (ground arith))
    | inr b ↦ elim (Bool-cases (text_eq (d.salted password u.salt) u.password)) [
      | inl x ↦ Matches.old_salted b (text_eq_sound (d.salted password u.salt) u.password x)
      | inr x ↦ elim (Bool-cases (text_eq u.password password)) [
        | inl y ↦ Matches.old_plain b (text_eq_sound u.password password y)
        | inr y ↦ elim (Bool-cases (text_eq (d.salted (d.sha256 password) u.salt) u.password)) [
          | inl z ↦
              Matches.old_hashed_salted b
                (text_eq_sound (d.salted (d.sha256 password) u.salt) u.password z)
          | inr z ↦
              Matches.old_hashed b (text_eq_sound u.password (d.sha256 password) (ground arith))
        ]
      ]
    ]
  ]

  Matches-password_match :
      (password : Text) (u : User) → Matches password u → password_match d password u ≡ true
  unfolding password_match is_current
  Matches-password_match password u (Matches.current a b e) =
      let x : text_eq u.algo pbkdf2_algo ≡ true = rw a refl in
      let y : text_eq (d.pbkdf2 password u.salt) u.password ≡ true =
        rw e (text_eq_refl u.password) in
      ground arith
  Matches-password_match password u (Matches.old_salted b e) =
      let y : text_eq (d.salted password u.salt) u.password ≡ true =
        rw e (text_eq_refl u.password) in
      ground arith
  Matches-password_match password u (Matches.old_plain b e) =
      let y : text_eq u.password password ≡ true = rw e (text_eq_refl password) in ground arith
  Matches-password_match password u (Matches.old_hashed_salted b e) =
      let y : text_eq (d.salted (d.sha256 password) u.salt) u.password ≡ true =
        rw e (text_eq_refl u.password) in
      ground arith
  Matches-password_match password u (Matches.old_hashed b e) =
      let y : text_eq u.password (d.sha256 password) ≡ true =
        rw e (text_eq_refl (d.sha256 password)) in
      ground arith

  -- What has to hold for a login to get in.
  pub record Admitted (now : ℕ) (peer : PeerSession) (p : MasterUserLoginPacket) (limits : Tracker)
      (db : Option d.Db) : Type 0 where
    pub rows : d.Db
    pub user : User
    pub open_database : db ≡ some rows
    pub not_locked : is_locked_out now (before_colon peer.readable) limits ≡ none
    pub named : is_empty (lower p.email) ≡ false
    pub has_password : is_empty p.password ≡ false
    pub known : d.select_user (lower p.email) rows ≡ some (some user)
    pub matching : Matches p.password user

  login-Admitted :
      (now : ℕ) (salt token : Text) (peer : PeerSession) (p : MasterUserLoginPacket)
      (limits : Tracker) (db : Option d.Db)
      → (login d now salt token peer p (limits, db)).1.success ≡ true
      → Admitted now peer p limits db
  unfolding login
  login-Admitted now salt token peer p limits db s =
      elim (Option-cases (is_locked_out now (before_colon peer.readable) limits)) [
        | inr (seconds, h) ↦ absurd (let x = rw (login, h) at s in cc)
        | inl h ↦ elim (Bool-cases (is_empty (lower p.email) || is_empty p.password)) [
          | inl e ↦ absurd (let x = rw (login, h, e) at s in cc)
          | inr e ↦ elim (Option-cases db) [
            | inl n ↦ absurd (let x = rw (login, h, e, n) at s in cc)
            | inr (rows, n) ↦ elim (Option-cases (d.select_user (lower p.email) rows)) [
              | inl q ↦ absurd (let x = rw (login, h, e, n, q) at s in cc)
              | inr (none, q) ↦ absurd (let x = rw (login, h, e, n, q) at s in cc)
              | inr (some u, q) ↦ elim (Bool-cases (password_match d p.password u)) [
                | inr m ↦ absurd (let x = rw (login, h, e, n, q, m) at s in cc)
                | inl m ↦ record {
                  rows = rows;
                  user = u;
                  open_database = n;
                  not_locked = h;
                  named = ground arith;
                  has_password = ground arith;
                  known = q;
                  matching = password_match-Matches p.password u m;
                }
              ]
            ]
          ]
        ]
      ]

  -- Where it all holds, the login gets in: the answer has the name of the row and the new session's
  -- token, and the failures of the address are forgotten.
  pub Admitted-login :
      (now : ℕ) (salt token : Text) (peer : PeerSession) (p : MasterUserLoginPacket)
      (limits : Tracker) (db : Option d.Db) (v : Admitted now peer p limits db)
      → login d now salt token peer p (limits, db) ≡ (
        (
          record_success (before_colon peer.readable) limits,
          some (create_session d v.user.id token (upgraded d salt p.password v.user v.rows)).1,
        ),
        record {
          success = true;
          message = logged_in;
          username = v.user.username;
          token = (create_session d v.user.id token (upgraded d salt p.password v.user v.rows)).0;
        },
      )
  unfolding login
  Admitted-login now salt token peer p limits db v =
      let given : is_empty (lower p.email) || is_empty p.password ≡ false =
        rw (v.named, v.has_password) refl in
      let matched = Matches-password_match p.password v.user v.matching in
      rw (login, v.not_locked, given, v.open_database, v.known, matched) refl

  -- A login succeeds exactly when its address is not locked out, it has an e-mail address and a
  -- password, the database is open and has the row of the lower-case e-mail address, and the password
  -- matches that row: by its salted slow hash, or, for an old row, in one of four older ways.
  pub login_iff :
      (now : ℕ) (salt token : Text) (peer : PeerSession) (p : MasterUserLoginPacket)
      (limits : Tracker) (db : Option d.Db)
      → ((login d now salt token peer p (limits, db)).1.success ≡ true)
        ↔ Admitted now peer p limits db
  login_iff now salt token peer p limits db = (
    login-Admitted now salt token peer p limits db,
    λ v. ap (λ r. r.1.success) (Admitted-login now salt token peer p limits db v),
  )
