-- ===== src/Broker/Messages.antt =====
-- The messages that the account handlers of src/master/MasterMain.cpp answer with.
use gip_multiplayer.Base.{[], ◌∷◌}
use gip_multiplayer.Base.Text.{Text}

-- "Username must be 3-20 characters (letters, numbers, _)."
abbrev pub name_rules : Text
name_rules =
    85 ∷ 115 ∷ 101 ∷ 114 ∷ 110 ∷ 97 ∷ 109 ∷ 101 ∷ 32 ∷ 109 ∷ 117 ∷ 115 ∷ 116 ∷ 32 ∷ 98 ∷ 101 ∷ 32
    ∷ 51 ∷ 45 ∷ 50 ∷ 48 ∷ 32 ∷ 99 ∷ 104 ∷ 97 ∷ 114 ∷ 97 ∷ 99 ∷ 116 ∷ 101 ∷ 114 ∷ 115 ∷ 32 ∷ 40 ∷ 108
    ∷ 101 ∷ 116 ∷ 116 ∷ 101 ∷ 114 ∷ 115 ∷ 44 ∷ 32 ∷ 110 ∷ 117 ∷ 109 ∷ 98 ∷ 101 ∷ 114 ∷ 115 ∷ 44 ∷ 32
    ∷ 95 ∷ 41 ∷ 46 ∷ []

-- "Invalid email address format."
abbrev pub bad_email : Text
bad_email =
    73 ∷ 110 ∷ 118 ∷ 97 ∷ 108 ∷ 105 ∷ 100 ∷ 32 ∷ 101 ∷ 109 ∷ 97 ∷ 105 ∷ 108 ∷ 32 ∷ 97 ∷ 100 ∷ 100
    ∷ 114 ∷ 101 ∷ 115 ∷ 115 ∷ 32 ∷ 102 ∷ 111 ∷ 114 ∷ 109 ∷ 97 ∷ 116 ∷ 46 ∷ []

-- "Password is required."
abbrev pub no_password : Text
no_password =
    80 ∷ 97 ∷ 115 ∷ 115 ∷ 119 ∷ 111 ∷ 114 ∷ 100 ∷ 32 ∷ 105 ∷ 115 ∷ 32 ∷ 114 ∷ 101 ∷ 113 ∷ 117 ∷ 105
    ∷ 114 ∷ 101 ∷ 100 ∷ 46 ∷ []

-- "Database unavailable."
abbrev pub no_database : Text
no_database =
    68 ∷ 97 ∷ 116 ∷ 97 ∷ 98 ∷ 97 ∷ 115 ∷ 101 ∷ 32 ∷ 117 ∷ 110 ∷ 97 ∷ 118 ∷ 97 ∷ 105 ∷ 108 ∷ 97 ∷ 98
    ∷ 108 ∷ 101 ∷ 46 ∷ []

-- "Database error."
abbrev pub database_error : Text
database_error =
    68 ∷ 97 ∷ 116 ∷ 97 ∷ 98 ∷ 97 ∷ 115 ∷ 101 ∷ 32 ∷ 101 ∷ 114 ∷ 114 ∷ 111 ∷ 114 ∷ 46 ∷ []

-- "Registration successful!"
abbrev pub registered : Text
registered =
    82 ∷ 101 ∷ 103 ∷ 105 ∷ 115 ∷ 116 ∷ 114 ∷ 97 ∷ 116 ∷ 105 ∷ 111 ∷ 110 ∷ 32 ∷ 115 ∷ 117 ∷ 99 ∷ 99
    ∷ 101 ∷ 115 ∷ 115 ∷ 102 ∷ 117 ∷ 108 ∷ 33 ∷ []

-- "Username or Email already exists."
abbrev pub exists : Text
exists =
    85 ∷ 115 ∷ 101 ∷ 114 ∷ 110 ∷ 97 ∷ 109 ∷ 101 ∷ 32 ∷ 111 ∷ 114 ∷ 32 ∷ 69 ∷ 109 ∷ 97 ∷ 105 ∷ 108
    ∷ 32 ∷ 97 ∷ 108 ∷ 114 ∷ 101 ∷ 97 ∷ 100 ∷ 121 ∷ 32 ∷ 101 ∷ 120 ∷ 105 ∷ 115 ∷ 116 ∷ 115 ∷ 46 ∷ []

-- "Incorrect email or password."
abbrev pub incorrect : Text
incorrect =
    73 ∷ 110 ∷ 99 ∷ 111 ∷ 114 ∷ 114 ∷ 101 ∷ 99 ∷ 116 ∷ 32 ∷ 101 ∷ 109 ∷ 97 ∷ 105 ∷ 108 ∷ 32 ∷ 111
    ∷ 114 ∷ 32 ∷ 112 ∷ 97 ∷ 115 ∷ 115 ∷ 119 ∷ 111 ∷ 114 ∷ 100 ∷ 46 ∷ []

-- "Login successful!"
abbrev pub logged_in : Text
logged_in =
    76 ∷ 111 ∷ 103 ∷ 105 ∷ 110 ∷ 32 ∷ 115 ∷ 117 ∷ 99 ∷ 99 ∷ 101 ∷ 115 ∷ 115 ∷ 102 ∷ 117 ∷ 108 ∷ 33
    ∷ []

-- "Invalid session token."
abbrev pub bad_token : Text
bad_token =
    73 ∷ 110 ∷ 118 ∷ 97 ∷ 108 ∷ 105 ∷ 100 ∷ 32 ∷ 115 ∷ 101 ∷ 115 ∷ 115 ∷ 105 ∷ 111 ∷ 110 ∷ 32 ∷ 116
    ∷ 111 ∷ 107 ∷ 101 ∷ 110 ∷ 46 ∷ []

-- "Auto-login successful!"
abbrev pub auto_login : Text
auto_login =
    65 ∷ 117 ∷ 116 ∷ 111 ∷ 45 ∷ 108 ∷ 111 ∷ 103 ∷ 105 ∷ 110 ∷ 32 ∷ 115 ∷ 117 ∷ 99 ∷ 99 ∷ 101 ∷ 115
    ∷ 115 ∷ 102 ∷ 117 ∷ 108 ∷ 33 ∷ []

-- "Session expired or invalid. Please log in."
abbrev pub expired : Text
expired =
    83 ∷ 101 ∷ 115 ∷ 115 ∷ 105 ∷ 111 ∷ 110 ∷ 32 ∷ 101 ∷ 120 ∷ 112 ∷ 105 ∷ 114 ∷ 101 ∷ 100 ∷ 32 ∷ 111
    ∷ 114 ∷ 32 ∷ 105 ∷ 110 ∷ 118 ∷ 97 ∷ 108 ∷ 105 ∷ 100 ∷ 46 ∷ 32 ∷ 80 ∷ 108 ∷ 101 ∷ 97 ∷ 115 ∷ 101
    ∷ 32 ∷ 108 ∷ 111 ∷ 103 ∷ 32 ∷ 105 ∷ 110 ∷ 46 ∷ []

-- "Too many failed attempts. Locked out for "
abbrev pub locked_prefix : Text
locked_prefix =
    84 ∷ 111 ∷ 111 ∷ 32 ∷ 109 ∷ 97 ∷ 110 ∷ 121 ∷ 32 ∷ 102 ∷ 97 ∷ 105 ∷ 108 ∷ 101 ∷ 100 ∷ 32 ∷ 97
    ∷ 116 ∷ 116 ∷ 101 ∷ 109 ∷ 112 ∷ 116 ∷ 115 ∷ 46 ∷ 32 ∷ 76 ∷ 111 ∷ 99 ∷ 107 ∷ 101 ∷ 100 ∷ 32 ∷ 111
    ∷ 117 ∷ 116 ∷ 32 ∷ 102 ∷ 111 ∷ 114 ∷ 32 ∷ []
