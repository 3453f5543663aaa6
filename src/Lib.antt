-- ===== src/Lib.antt =====
-- siratis-nmbl-bootloader, a boot loader that runs as the init of a small Linux initrd: it picks a
-- NixOS generation, checks its signatures and starts its kernel by kexec. All paths below are in
-- sirati-nmbl/nmbl-init-rs/src.
--
-- Boot state. state/decide.rs decides at each boot, from a small file that outlives it, whether the
-- operator's choice is honoured, a known good generation is forced, or the rescue is entered;
-- state/io.rs and state/rescue_exit.rs read and write the file, main_parts/stateful.rs applies the
-- decision and records the attempt.
--   State/Types       state/types.rs: State, StatefulDecision; Generation of generations/mod.rs
--   State/Error       the NmblError variants that this code raises, and results
--   State/Decide      state/decide.rs: decide, pick_fallback, avoid_failed_unproven,
--                     rotate_known_good, record_operator_retry, active_is_unproven
--   State/Mark        the change that each event makes to the state
--   State/Io          state/io.rs: read, write_padded
--   State/Persist     state/io.rs: init_or_validate, mark_boot_succeeded, mark_unproven;
--                     state/rescue_exit.rs: both operations
--   State/Dispatch    main_parts/stateful.rs; active_generation_index of generations/scan.rs
--   State/Ring, Rotation, Fallback, Picked, Proven, Rollback, GivingUp, Lifecycle, Decided, Marked,
--   Events, Durability, Installed, RescueRetry, Selection, Boots: the lemmas and theorems about them
--   State/Codec, State/Tests: runs at concrete inputs, with a small codec in place of CBOR
-- A `&mut State` is passed in and handed back. A NonMaxU32 or a u32 is a number, whose range a
-- theorem states where it needs it; recovery_attempt saturates at the end of its range. The file is
-- its bytes, or absent. What the operating system refuses during one access is an argument, a
-- record of faults; a refused write may leave some of the bytes. CBOR (the crate ciborium) is a
-- parameter: where a theorem needs it, a codec is self-delimiting, that is decoding an encoded state
-- gives it back whatever follows it. In State/Boots an unattended run of boots is counted by the
-- number of boots, which is structural.
--
-- Signatures. sig/ checks a detached signature, 48 bytes of header and one ML-DSA signature, of a
-- digest in a role; policy/gate.rs narrows the baked keys to those the operator lists.
--   Sig/Alg           sig/alg.rs
--   Sig/Wire          sig/wire.rs: decode, encode
--   Sig/Sidecar       sig/sidecar.rs: SigSidecar::parse
--   Sig/Verify        sig/keys.rs; verify_digest of sig/verify.rs; verify_priority_against and
--                     allowed_fingerprints of policy/gate.rs
--   Sig/RoundTrip, Strictness, Trust, Acceptance: the lemmas and theorems about them
--   Sig/Tests         runs at concrete inputs
-- SHA-256 (crate sha2) and the check of an ML-DSA signature (crate fips204) are parameters without
-- any assumption. The detail text of an error is left out. A slice is its bytes.
--
-- Hexadecimal. Hex is util/hex.rs, which reads the operator's fingerprints.
--
-- DHCP. net/dhcp obtains an address for the network rescue.
--   Dhcp/Packet       net/dhcp/packet.rs: wrap_ip_udp, ipv4_checksum, strip_ip_udp
--   Dhcp/Exchange     net/dhcp/exchange.rs, net/dhcp/options.rs; recv_dhcp of net/dhcp/socket.rs
--   Dhcp/Acquire      the two exchanges, and acquire of net/dhcp/mod.rs
--   Dhcp/Checksum, RoundTrip, Bounds, Retries, Replies, Leases: the lemmas and theorems about them
--   Dhcp/Tests        runs at concrete inputs
-- Messages are those of the crate dhcproto, a parameter. What the clock and the socket give in each
-- turn of a loop is an argument; times are nanoseconds. The loop over carries runs on three units of
-- fuel, as two rounds leave no carry of a u32, and a retry loop on MAX_RETRIES, since it counts its
-- turns up to that. recv_dhcp runs over the list of what arrives.
--
-- Seal. policy/guard.rs caps the PCR that the TPM's secrets are bound to and closes every mapper that
-- a TPM unlocked, before anything interactive runs; policy/registry.rs remembers those mappers.
--   Seal/Registry     policy/registry.rs
--   Seal/Guard        policy/guard.rs; CapOutcome of tpm/mod.rs
--   Seal/Drained, Sealing, Survival: the lemmas and theorems about them
--   Seal/Tests        runs at concrete inputs
-- A thread-local is passed in and handed back. The TPM's answer, the exit codes of cryptsetup and
-- what the file system refuses are arguments; the async and the blocking form of an operation are one
-- definition. Texts are ASCII bytes.
--
-- Boot update. nmbl-boot-update (beside src) installs a signed boot set into the slot of the boot
-- partition that is not active, and then switches the selector that the first boot loader reads.
--   Update/Manifest   nmbl-boot-update/src/manifest.rs; Error of lib.rs
--   Update/Bundle     nmbl-boot-update/src/validate.rs; domain_for and verify_reader of
--                     nmbl-host-tools/src, on top of Sig/Verify
--   Update/Disk       the calls of the file system and what each may do
--   Update/Slots, Staging, Install: nmbl-boot-update/src/transaction.rs
--   Update/Names, EntryShape, Shape, Verified, Steps, Untouched, Entries, Staged, Source, Safety,
--   Atomic, Current, Survival, Ending: the lemmas and theorems about them
--   Update/Tests      runs at concrete inputs
-- A call is answered from a list: done, or failed after a part of its work; past the end of the list
-- the machine has stopped. A completed call is taken to be on the disk. serde_json, std::path,
-- SHA-512 and ML-DSA are parameters without any assumption. The bundle does not change meanwhile.
--
-- Log. log/ keeps the last lines for the screen and the last mebibyte of the transcript for the disk.
--   Log/Ring          log/ring.rs
--   Log/ByteRing      log/byte_ring.rs
--   Log/Suffix, Lines: the lemmas and theorems about them
--   Log/Tests         runs at concrete inputs
-- The formatting of numbers and the lossy reading of UTF-8 are parameters.
--
-- Refusing. policy/gate.rs lets a boot go on only with a signed priority file; policy/relock locks the
-- volumes again before a refused boot ends in the rescue.
--   Refuse/Gate       policy/gate.rs, on top of Sig/Verify
--   Refuse/Argv       policy/relock/argv.rs
--   Refuse/Relock     policy/relock.rs and policy/sentinel.rs, with resolve_boot_mountpoint and
--                     resolve_mountpoint
--   Refuse/ReadOnly, Enforced, Commands, Mangle, Refused: the lemmas and theorems about them
--   Refuse/Tests      runs at concrete inputs
-- The file system is a function of what is mounted; which calls succeed is an argument, the same for
-- every call with the same operands.
--
-- Settings. config/mod.rs refuses, before anything is mounted, a configuration that cannot be.
--   Settings/Validate         Config::validate, validate_activation_covers_filesystems
--   Settings/Checks, Mountable: the lemmas and the theorem about them
--   Settings/Tests            runs at concrete inputs
--
-- Prelude holds the names all modules share: tests on native numbers, lists measured by them,
-- machine words, byte buffers.
--
-- Not modelled: system calls and the processes around them (phases, devices, mounts, kexec, TPM,
-- sockets), the terminal and frame buffer interfaces, TOML decoding, the host tools, and the Nix
-- expressions. Log messages are left out everywhere. Nothing is assumed about timing.
pub mod Prelude
pub mod Dhcp
pub mod Hex
pub mod Log
pub mod Refuse
pub mod Seal
pub mod Settings
pub mod Sig
pub mod State
pub mod Update
