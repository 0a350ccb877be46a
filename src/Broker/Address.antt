-- ===== src/Broker/Address.antt =====
-- Addresses as text, "host:port": `SplitHostPort` and the public address of a peer, of
-- src/master/MasterMain.cpp. `std::stoi` is a parameter.
use gip_multiplayer.Base.{
  ℕ, ◌≤◌, ◌≡◌, refl, Bool, true, false, not, ◌||◌, List, [], ◌∷◌, ◌++◌, Option, none, some, ltb,
  ◌==◌, if◌then◌else◌, arith,
}
use gip_multiplayer.Base.Text.{Text, text_eq}
use gip_multiplayer.Broker.{Traversal}

-- A signed integer of the machine.
pub data ℤ : Type 0 where
  pos : ℕ → ℤ
  negsuc : ℕ → ℤ

abbrev pub colon : ℕ
colon = 58

-- `text.rfind(':')`: what stands before the last colon and after it.
unfoldable pub split_last : Text → Option (Text × Text)
split_last [] = none
split_last (c ∷ cs) = elim (split_last cs) [
  | some (front, back) ↦ some (c ∷ front, back)
  | none ↦ if c == colon then some ([], cs) else none
]

-- `text.substr(0, text.find(':'))`, or the text where it has no colon.
unfoldable pub before_colon : Text → Text
before_colon [] = []
before_colon (c ∷ cs) = let rest = before_colon cs in if c == colon then [] else c ∷ rest

-- `std::stoi` throws where it has no number: `none`.
abbrev parse_port : Option ℤ → Option ℕ
parse_port none = none
parse_port (some (ℤ.negsuc n)) = none
parse_port (some (ℤ.pos n)) = if ltb 65535 n then none else some n

unfoldable pub split_host_port : (Text → Option ℤ) → Text → Option (Text × ℕ)
split_host_port stoi text = elim (split_last text) [
  | none ↦ none
  | some (host, rest) ↦ elim (parse_port (stoi rest)) [
    | none ↦ none
    | some port ↦ some (host, port)
  ]
]

-- `advertisedPort`: the port of the text, or 25000.
unfoldable pub advertised_port : (Text → Option ℤ) → Text → ℕ
advertised_port stoi text = elim (split_host_port stoi text) [
  | none ↦ 25000
  | some (_, port) ↦ port
]

-- The observed address, then the host addresses that differ from it.
unfoldable pub host_addresses : (t : Traversal) → Text → List t.C → List Text
host_addresses t observed [] = []
host_addresses t observed (c ∷ cs) =
    let rest = host_addresses t observed cs in
    if not (t.is_host c) || not (t.has_address c)
    then rest
    else if text_eq (t.address c) observed
    then rest
    else t.address c ∷ rest

unfoldable pub peer_addresses : (t : Traversal) → Text → List t.C → List Text
peer_addresses t observed candidates = observed ∷ host_addresses t observed candidates

-- Whether a text has no colon.
unfoldable pub no_colon : Text → Bool
no_colon [] = true
no_colon (c ∷ cs) = if c == colon then false else no_colon cs

split_last-no_colon : (back : Text) → no_colon back ≡ true → split_last back ≡ none
unfolding split_last no_colon
split_last-no_colon [] h = refl
split_last-no_colon (c ∷ cs) h = ground (arith, split_last-no_colon cs)

split_last-joined :
    (front back : Text)
    → no_colon back ≡ true
    → split_last (front ++ colon ∷ back) ≡ some (front, back)
unfolding split_last
split_last-joined [] back h = rw (split_last-no_colon back h) refl
split_last-joined (c ∷ cs) back h = rw (split_last-joined cs back h) refl

before_colon-joined :
    (front back : Text) → no_colon front ≡ true → before_colon (front ++ colon ∷ back) ≡ front
unfolding before_colon no_colon
before_colon-joined [] back h = refl
before_colon-joined (c ∷ cs) back h = ground (arith, before_colon-joined cs back)

-- An address written as its host, a colon and its port comes apart into the two, whatever colons the
-- host has, where the text after the last colon has no colon and is read as a number that fits a port.
pub split_host_port-joined :
    (stoi : Text → Option ℤ) (host digits : Text) (port : ℕ)
    → no_colon digits ≡ true
    → stoi digits ≡ some (ℤ.pos port)
    → port ≤ 65535
    → split_host_port stoi (host ++ colon ∷ digits) ≡ some (host, port)
unfolding split_host_port
split_host_port-joined stoi host digits port h e l =
    rw (split_host_port, split_last-joined host digits h) (rw (parse_port, e) (ground arith))
