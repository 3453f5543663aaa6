-- ===== src/Refuse/Enforced.antt =====
-- What a run of the priority gate lets through.
use siratis_nmbl_bootloader.Prelude.{
  ◌≡◌, refl, sym, subst, ◌⊎◌, inl, inr, Bool, true, false, ◌&&◌, Option, none, some, List, ◌∷◌,
  ◌++◌, arith, Bool-cases, if_case, Bytes, bytes_eq_refl, ok, err,
}
use siratis_nmbl_bootloader.Refuse.Gate.{
  GatePhase, PriorityVolume, Config, AttestedVolume, GateError, GateDecision, Mount, System, Gated,
  matches, volume_mount, drop_volume, mount_owned, mount_priority_volume, verify_signed_file,
  decide_no_volume, judged, with_volume, evaluate, outcome_of, gate_volume, run_priority_gate_at,
  pre_plain_boot, post_unlock, attested, audit_proceed, refuse,
}
use siratis_nmbl_bootloader.Sig.Verify.{BakedKey, Verdict, parse_key_set, verify_priority_against}
use siratis_nmbl_bootloader.Sig.Acceptance.{IsAttested, verify_priority_against-IsAttested}

abbrev pub has_volume : GatePhase → Option PriorityVolume → Bool
has_volume phase none = false
has_volume phase (some vol) = matches phase vol

module _ (system : System) (config : Config) where
  -- The file at the configured path of a volume and its sidecar, which pass with the baked keys.
  pub record IsVerified (vol : AttestedVolume) (mounts : List Mount) : Type 0 where
    pub contents : Bytes
    pub sig_bytes : Bytes
    pub baked : List BakedKey
    pub file :
        system.read mounts (system.join vol.mountpoint config.signed_file_path) ≡ some contents
    pub sidecar :
        system.read mounts
          (system.join vol.mountpoint config.signed_file_path ++ config.sig_path_suffix)
        ≡ some sig_bytes
    pub keys : parse_key_set system.crypto system.baked ≡ ok baked
    pub passes :
        IsAttested system.crypto config.allowed_key_ids (system.sha512 contents) sig_bytes baked

  -- The gate is on and has this volume at this phase.
  abbrev pub applies : GatePhase → Bool
  applies phase = config.enable && has_volume phase config.priority_volume

  verify_signed_file-IsVerified :
      (vol : AttestedVolume) (mounts : List Mount)
      → verify_signed_file system config (system.join vol.mountpoint config.signed_file_path) mounts
        ≡ ok tt
      → IsVerified vol mounts
  unfolding verify_signed_file
  verify_signed_file-IsVerified vol mounts h =
      go (system.read mounts path) refl (system.read mounts (path ++ config.sig_path_suffix)) refl
        (parse_key_set system.crypto system.baked) refl
    where
      path : Bytes
      path = system.join vol.mountpoint config.signed_file_path

      go :
          (c : Option Bytes)
          → system.read mounts (system.join vol.mountpoint config.signed_file_path) ≡ c
          → (s : Option Bytes)
          → system.read mounts
              (system.join vol.mountpoint config.signed_file_path ++ config.sig_path_suffix)
            ≡ s
          → (k : Verdict (List BakedKey)) → parse_key_set system.crypto system.baked ≡ k
          → IsVerified vol mounts
      go none ec s es k ek = absurd (ground arith)
      go (some c) ec none es k ek = absurd (ground arith)
      go (some c) ec (some s) es (err why) ek = absurd (ground arith)
      go (some c) ec (some s) es (ok baked) ek =
          let passed : verify_priority_against system.crypto config.allowed_key_ids
                (system.sha512 c) s baked
              ≡ ok tt =
            ground arith in
          record {
            contents = c;
            sig_bytes = s;
            baked = baked;
            file = ec;
            sidecar = es;
            keys = ek;
            passes =
                verify_priority_against-IsAttested system.crypto config.allowed_key_ids _ s baked
                  passed;
          }

  -- The gate's own mount of this volume is the only one more, and the system refuses to unmount it.
  abbrev pub StaysMounted : PriorityVolume → List Mount → List Mount → Type 0
  StaysMounted vol mounts after =
      (system.unmounts vol.mountpoint ≡ false) × (after ≡ volume_mount vol ∷ mounts)

  -- What the gate's result says, by its branches.
  abbrev pub Ended : GatePhase → List Mount → Gated (Option AttestedVolume) × List Mount → Type 0
  Ended phase mounts (ok none, after) = (applies phase ≡ false) × (after ≡ mounts)
  Ended phase mounts (ok (some vol), after) =
      (applies phase ≡ true) × (IsVerified vol after ⊎ (config.enforce ≡ false))
  Ended phase mounts (err why, after) =
      (applies phase ≡ true)
      × (config.enforce ≡ true)
      × ((after ≡ mounts)
          ⊎ ((vol : PriorityVolume) × (config.priority_volume ≡ some vol)
              × StaysMounted vol mounts after))

  -- The same of a decision on a volume of the configuration.
  abbrev Settled : PriorityVolume → List Mount → GateDecision × List Mount → Type 0
  Settled own mounts (attested vol, after) = IsVerified vol after
  Settled own mounts (audit_proceed vol, after) = config.enforce ≡ false
  Settled own mounts (refuse why, after) =
      (config.enforce ≡ true) × ((after ≡ mounts) ⊎ StaysMounted own mounts after)

  -- What dropping an attested volume leaves.
  abbrev Held : PriorityVolume → AttestedVolume → List Mount → List Mount → Type 0
  Held own vol mounts after =
      (drop_volume system vol after ≡ mounts)
      ⊎ StaysMounted own mounts (drop_volume system vol after)

  abbrev Kept : PriorityVolume → List Mount → Gated AttestedVolume × List Mount → Type 0
  Kept own mounts (ok vol, after) = Held own vol mounts after
  Kept own mounts (err why, after) = after ≡ mounts

  judged-Settled :
      (own : PriorityVolume) (vol : AttestedVolume) (mounts after : List Mount)
      (result : Gated (Unit {0}))
      → verify_signed_file system config (system.join vol.mountpoint config.signed_file_path) after
        ≡ result
      → Held own vol mounts after
      → Settled own mounts (judged system config vol after result)
  judged-Settled own vol mounts after (ok _) is h = verify_signed_file-IsVerified vol after is
  judged-Settled own vol mounts after (err why) is h =
      if_case (Settled own mounts) config.enforce (λ on. (on, h)) (λ off. off)

  no_volume-Settled :
      (own : PriorityVolume) (mounts : List Mount) (why : GateError)
      → Settled own mounts (decide_no_volume system config why, mounts)
  no_volume-Settled own mounts why =
      if_case (λ (d : GateDecision). Settled own mounts (d, mounts)) config.enforce
        (λ on. (on, inl refl)) (λ off. off)

  with_volume-Settled :
      (own : PriorityVolume) (mounts : List Mount) (mounted : Gated AttestedVolume × List Mount)
      → Kept own mounts mounted
      → Settled own mounts (with_volume system config mounted)
  with_volume-Settled own mounts (ok vol, after) h = judged-Settled own vol mounts after _ refl h
  with_volume-Settled own mounts (err why, after) h =
      subst (λ m. Settled own mounts (decide_no_volume system config why, m)) (sym h)
        (no_volume-Settled own mounts why)

  owned-Held :
      (vol : PriorityVolume) (mounts : List Mount)
      → Held vol
          (record { mountpoint = vol.mountpoint; owned_mount = some vol.mountpoint })
          mounts
          (volume_mount vol ∷ mounts)
  owned-Held vol mounts = elim (Bool-cases (system.unmounts vol.mountpoint)) [
    | inl works ↦ inl (rw (works, bytes_eq_refl vol.mountpoint) refl)
    | inr fails ↦ inr (fails, rw fails refl)
  ]

  mount_owned-Kept :
      (vol : PriorityVolume) (mounts : List Mount) → Kept vol mounts (mount_owned system vol mounts)
  mount_owned-Kept vol mounts =
      if_case (Kept vol mounts) (system.creates vol.mountpoint)
        (λ created.
          if_case (Kept vol mounts) (system.mounts (volume_mount vol)) (λ on. owned-Held vol mounts)
            (λ failed. refl))
        (λ failed. refl)

  evaluate-Settled :
      (phase : GatePhase) (vol : PriorityVolume) (mounts : List Mount)
      → Settled vol mounts (evaluate system phase config vol mounts)
  evaluate-Settled pre_plain_boot vol mounts =
      with_volume-Settled vol mounts (mount_priority_volume system pre_plain_boot config vol mounts)
        (inl refl)
  evaluate-Settled post_unlock vol mounts =
      with_volume-Settled vol mounts (mount_owned system vol mounts) (mount_owned-Kept vol mounts)

  outcome_of-Ended :
      (phase : GatePhase) (own : PriorityVolume) (mounts : List Mount)
      (decision : GateDecision × List Mount)
      → applies phase ≡ true
      → config.priority_volume ≡ some own
      → Settled own mounts decision
      → Ended phase mounts (outcome_of system decision)
  outcome_of-Ended phase own mounts (attested vol, after) on there h = (on, inl h)
  outcome_of-Ended phase own mounts (audit_proceed vol, after) on there h = (on, inr h)
  outcome_of-Ended phase own mounts (refuse why, after) on there (e, inl same) = (on, e, inl same)
  outcome_of-Ended phase own mounts (refuse why, after) on there (e, inr stays) =
      (on, e, inr (own, there, stays))

  -- The gate, run at either phase in any configuration. Nothing comes of it, and nothing is mounted,
  -- only where it is off or its volume is not this phase's. A volume comes of it only where the file at
  -- the configured path of that volume and its sidecar pass the check with the baked keys, or where the
  -- gate does not enforce. It fails only where it enforces, and then leaves the mounts as they were,
  -- unless the system refuses to unmount the configured volume's mountpoint: then the gate's own mount of
  -- that volume is left, and nothing else.
  pub run_priority_gate_at-Ended :
      (phase : GatePhase) (mounts : List Mount)
      → Ended phase mounts (run_priority_gate_at system phase config mounts)
  unfolding run_priority_gate_at
  run_priority_gate_at-Ended phase mounts =
      if_case (Ended phase mounts) config.enable (λ on. volume_Ended config.priority_volume refl on)
        (λ off. (rw off refl, refl))
    where
      with_volume_Ended :
          (vol : PriorityVolume)
          → config.enable ≡ true
          → config.priority_volume ≡ some vol
          → Ended phase mounts (gate_volume system phase config (some vol) mounts)
      with_volume_Ended vol on there =
          if_case (Ended phase mounts) (matches phase vol)
            (λ here.
              outcome_of-Ended phase vol mounts (evaluate system phase config vol mounts)
                (ground arith) there (evaluate-Settled phase vol mounts))
            (λ elsewhere. (ground arith, refl))

      volume_Ended :
          (volume : Option PriorityVolume)
          → config.priority_volume ≡ volume
          → config.enable ≡ true
          → Ended phase mounts (gate_volume system phase config volume mounts)
      volume_Ended none there on = (ground arith, refl)
      volume_Ended (some vol) there on = with_volume_Ended vol on there
