-- ===== src/Broker/Offer.antt =====
-- The candidates that one side of a connection is told to punch: `BuildOffer` of
-- src/master/MasterMain.cpp.
use gip_multiplayer.Base.{
  ℕ, ◌-◌, ◌<◌, ◌≤◌, ◌≡◌, ◌∙◌, refl, sym, subst, append-nil, append_assoc, inl, inr, Bool, true,
  false, ◌&&◌, ◌||◌, not, List, [], ◌∷◌, ◌++◌, Option, none, some, if◌then◌else◌, length,
  length-append, length-take, take, All, arith, Bool-cases,
}
use gip_multiplayer.Base.Text.{Text, text_eq, text_eq_refl}
use gip_multiplayer.Broker.{Traversal}

module _ (t : Traversal) where
  unfoldable pub reflexive_ones : List t.C → List t.C
  reflexive_ones [] = []
  reflexive_ones (c ∷ cs) =
      let rest = reflexive_ones cs in if t.is_reflexive c then c ∷ rest else rest

  -- What was gathered, or the master's own observation where no reflector answered.
  unfoldable pub reflexive_part : Text → ℕ → List t.C → List t.C
  reflexive_part observed_ip punch_port gathered = elim (reflexive_ones gathered) [
    | c ∷ cs ↦ c ∷ cs
    | [] ↦ elim (t.reflexive_at observed_ip punch_port) [ some c ↦ c ∷ [] | none ↦ [] ]
  ]

  -- Whether an address is offered already.
  unfoldable pub is_known : Text → List t.C → Bool
  is_known address [] = false
  is_known address (c ∷ cs) = text_eq (t.address c) address || is_known address cs

  unfoldable pub add_hosts : List t.C → List t.C → List t.C
  add_hosts out [] = out
  add_hosts out (c ∷ cs) =
      let kept = add_hosts (out ++ c ∷ []) cs in
      let skipped = add_hosts out cs in
      if t.is_host c && not (is_known (t.address c) out) then kept else skipped

  -- `resize` to one less than the bound, which is positive, where the list is longer.
  unfoldable pub build_offer : Text → ℕ → List t.C → Option t.C → List t.C
  build_offer observed_ip punch_port gathered relayed =
      let out = add_hosts (reflexive_part observed_ip punch_port gathered) gathered in
      let direct = take (t.max_candidates - 1) out in
      elim relayed [ none ↦ direct | some c ↦ direct ++ c ∷ [] ]

  -- The relayed candidate, if there is one.
  abbrev pub relayed_part : Option t.C → List t.C
  relayed_part none = []
  relayed_part (some c) = c ∷ []

  length-build_offer :
      (observed_ip : Text) (punch_port : ℕ) (gathered : List t.C) (relayed : Option t.C)
      → 0 < t.max_candidates
      → length (build_offer observed_ip punch_port gathered relayed) ≤ t.max_candidates
  unfolding build_offer
  length-build_offer ip port gathered none pos =
      let out = add_hosts (reflexive_part ip port gathered) gathered in
      rw (length-take (t.max_candidates - 1) out) (omega arith)
  length-build_offer ip port gathered (some c) pos =
      let out = add_hosts (reflexive_part ip port gathered) gathered in
      rw
        (
          length-append (take (t.max_candidates - 1) out) (c ∷ []),
          length-take (t.max_candidates - 1) out,
        )
        (omega arith)

  build_offer-form :
      (observed_ip : Text) (punch_port : ℕ) (gathered : List t.C) (relayed : Option t.C)
      → build_offer observed_ip punch_port gathered relayed
        ≡ take
            (t.max_candidates - 1)
            (add_hosts (reflexive_part observed_ip punch_port gathered) gathered)
          ++ relayed_part relayed
  unfolding build_offer
  build_offer-form ip port gathered none = sym (
      append-nil
        (take (t.max_candidates - 1) (add_hosts (reflexive_part ip port gathered) gathered)))
  build_offer-form ip port gathered (some c) = refl

  -- Each candidate has an address that is not offered before it.
  abbrev pub NewAddresses : List t.C → List t.C → Type 0
  NewAddresses before [] = Unit
  NewAddresses before (c ∷ cs) =
      (is_known (t.address c) before ≡ false) × NewAddresses (before ++ c ∷ []) cs

  -- Whether a candidate is no host, or its address is offered.
  abbrev pub is_covered : List t.C → t.C → Bool
  is_covered out c = not (t.is_host c) || is_known (t.address c) out

  record AddedHosts (out gathered : List t.C) : Type 0 where
    hosts : List t.C
    form : add_hosts out gathered ≡ out ++ hosts
    only_hosts : All (λ c. t.is_host c ≡ true) hosts
    apart : NewAddresses out hosts
    covered : All (λ c. is_covered (out ++ hosts) c ≡ true) gathered

  is_known-append :
      (address : Text) (front back : List t.C)
      → is_known address (front ++ back) ≡ (is_known address front || is_known address back)
  unfolding is_known
  is_known-append address [] back = refl
  is_known-append address (c ∷ cs) back = ground (arith, is_known-append address cs back)

  self_covered : (out : List t.C) (c : t.C) (cs : List t.C) → is_covered (out ++ c ∷ cs) c ≡ true
  unfolding is_known
  self_covered out c cs =
      ground (arith, is_known-append (t.address c) out (c ∷ cs), text_eq_refl (t.address c))

  added : (out gathered : List t.C) → AddedHosts out gathered
  unfolding add_hosts
  added out [] = record {
    hosts = [];
    form = sym (append-nil out);
    only_hosts = tt;
    apart = tt;
    covered = tt;
  }
  added out (c ∷ cs) = elim (Bool-cases (t.is_host c && not (is_known (t.address c) out))) [
    | inl b ↦
        let ih = added (out ++ c ∷ []) cs in
        let joined = append_assoc out (c ∷ []) ih.hosts in
        record {
          hosts = c ∷ ih.hosts;
          form = rw b (ih.form ∙ joined);
          only_hosts = (ground arith, ih.only_hosts);
          apart = (ground arith, ih.apart);
          covered = (
            self_covered out c ih.hosts,
            subst (λ l. All (λ x. is_covered l x ≡ true) cs) joined ih.covered,
          );
        }
    | inr b ↦
        let ih = added out cs in
        record {
          hosts = ih.hosts;
          form = rw b ih.form;
          only_hosts = ih.only_hosts;
          apart = ih.apart;
          covered = (ground (arith, is_known-append (t.address c) out ih.hosts), ih.covered);
        }
  ]

  pub record Offer (first gathered : List t.C) (relayed : Option t.C) (offer : List t.C)
      : Type 0 where
    pub hosts : List t.C
    pub form : offer ≡ take (t.max_candidates - 1) (first ++ hosts) ++ relayed_part relayed
    pub only_hosts : All (λ c. t.is_host c ≡ true) hosts
    pub apart : NewAddresses first hosts
    pub covered : All (λ c. is_covered (first ++ hosts) c ≡ true) gathered
    pub bounded : length offer ≤ t.max_candidates

  -- An offer is the reflexive part, then host candidates only, then the relayed one: each host has an
  -- address that is not offered before it, no gathered host's address is missing, and the list is cut
  -- before the relayed candidate, which is never lost, to no more than the library carries.
  pub build_offer-Offer :
      (observed_ip : Text) (punch_port : ℕ) (gathered : List t.C) (relayed : Option t.C)
      → 0 < t.max_candidates
      → Offer
          (reflexive_part observed_ip punch_port gathered)
          gathered
          relayed
          (build_offer observed_ip punch_port gathered relayed)
  unfolding build_offer
  build_offer-Offer ip port gathered relayed pos =
      let first = reflexive_part ip port gathered in
      let a = added first gathered in
      record {
        hosts = a.hosts;
        form = rw⁻¹ a.form (build_offer-form ip port gathered relayed);
        only_hosts = a.only_hosts;
        apart = a.apart;
        covered = a.covered;
        bounded = length-build_offer ip port gathered relayed pos;
      }
