-- ===== src/Lib.antt =====
-- The control plane of clew: a Controller keeps Sites and their Devices, enrols Devices by signed
-- passes, and keeps its whole state in two slot files.
--
-- The parts, and how they interact:
--
-- * The catalog (crates/clew-core/src/control.rs) is what the Controller shows and checks of its
--   Sites and Devices. Core.Policy and Core.Catalog model it, Core.Device the records of device.rs,
--   Core.Error the errors and limits, Core.State the versioned documents of state.rs, and
--   Core.Selection the choice of a Device in selection.rs.
-- * The registry (crates/clew-identity/src/enrollment.rs) decides which Devices are enrolled.
--   Identity.Grant models grant.rs, Identity.Keys the keys and signatures of keys.rs,
--   Identity.Bootstrap the signed pass of a Site, Identity.Records the records, Identity.Registry
--   the methods `finalize_host_persist`, `close_invite`, `revoke_invite`,
--   `delete_invite_history`, `revoke_device`, `revoke_site` and `close_all_invites`,
--   Identity.Registry.Claims the steps of `claim_with_ceiling`, and Identity.Registry.Passes the
--   methods that verify a pass. Identity.Registry.Calls puts the methods in sequence.
-- * The control store (crates/clew-runtime/src/control.rs) holds catalog, registry and activity log
--   in one snapshot. Runtime.Snapshot models the snapshot and its `validate`, Runtime.ControlStore
--   the two slots with `load_or_create` and `commit_candidate`, and
--   Runtime.ControlStore.Transaction `transaction` and the operations that run in one.
-- * The requests of the local API and of the remote services (the closures that
--   crates/clew-runtime/src/local_api.rs and crates/clew-runtime/src/remote.rs pass to
--   `transaction`) change catalog and registry together. Runtime.ControlCalls models each of them
--   as a function on a snapshot, and its child modules what they keep.
-- * The table of file transfers (crates/clew-runtime/src/transfer.rs): Runtime.Transfers models the
--   records and `prune_terminal`, Transfers.Journal the validation of the journal, and
--   Transfers.Start `persist` and the two starts with a given id, up to the worker that they spawn.
--   Transport.FileTransfer models the manifest of crates/clew-transport/src/file_transfer.rs.
-- * Core.Naming models the Device tags of crates/clew-core/src/naming.rs, and
--   Identity.Keys also the Device's own key and the session binding that it signs.
-- * The protocol's messages (proto/clew/v1/clew.proto) that
--   crates/clew-proto/src/validate.rs checks are the records of Proto.Wire; Wire.Negotiation and
--   Wire.Ids hold what the checks show.
-- * The transport: Transport.Inner models the encrypted session of
--   crates/clew-transport/src/inner.rs: the frames, the sequence numbers and the poisoning of a
--   session (Inner.Session), the identity proofs on both sides (Inner.Proofs), and `connect`, `accept`
--   and `accept_authorized` from the end of Noise's handshake on, with the packets of the proofs and
--   their timeouts (Inner.Handshake).
--   Transport.FileResume models the checkpoints of crates/clew-transport/src/file_resume.rs,
--   Transport.Lease the leases of lease.rs.
--
-- How the code is written here: a method on `&mut self` takes the state and returns its result
-- beside the state that it leaves, so that what is written before an early return stays written. A
-- `BTreeMap` is a list of pairs (Prelude.Map), sorted by key. An identifier is the value of its 16
-- bytes. Times and counters are natural numbers, and where the source uses `saturating_add`,
-- `saturating_sub` or `checked_add`, the bound of 64 bits is written out. A text is a list of scalar
-- values, with `trim` and the length in UTF-8 bytes (Prelude.Text). Bytes are natural numbers below
-- 256 (Prelude.Bytes). The stream under a session is the list of bytes still to be read.
--
-- Parameters: Ed25519, SHA-256 (`Crypto`) and serde_json (`Json`, `BootstrapJson`, `LeaseJson`,
-- `DescriptorJson`, `ProofJson`, `ProofCodec`) and the Noise transport of `snow` are not
-- in the repository. Random secrets and new identifiers are arguments
-- (`Draws`): a claim whose identifiers are all taken already answers `none`, since the loop of the
-- source draws again; the claims' theorems are about those that answer. The file system is the two
-- slots (`Disk`), and `WriteOutcome` says how a write ends: before the file is touched, after a
-- prefix of any length, or synced. For the journal of transfers, how a write ends (`write_slot`) and
-- `Path::is_absolute` are arguments.
--
-- Not modelled: the sockets, timers and tasks around the sessions, with the three handshake
-- packets of Noise; the byte encoding of the protocol's messages, which prost generates;
-- the Host, the user interfaces, the distribution of kits, the workers that move files and
-- directories, the chunks that they send, and backups: mostly input and output around this state.
pub mod Prelude
pub mod Core
pub mod Identity
pub mod Proto
pub mod Runtime
pub mod Transport
pub mod Examples
