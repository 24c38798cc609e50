-- ===== src/Lib.antt =====
-- Verification of the launcher's updater, its update policies and the ledger of release sequences.
--
-- The launcher keeps its installation in two slot files. Each holds a framed, checksummed state; the
-- updater writes a successor into the inactive slot, and after a crash a recovery loop reads both
-- slots, selects the authoritative state and writes further states until the installation is at
-- rest. Above it the launcher decides which releases to offer, when an update may be applied, and
-- when a lost proxy connection is started again. The sequences of the releases are given out by a
-- ledger whose lines are chained by digests.
--
-- Prelude: equality tests as instances, lists over the native numbers, exceptions as values.
-- Updater, for launcher/src/neko_launcher/updater:
--   Models: the records of state_models.py, with the checks of `__post_init__` (Checks), well-formed
--     objects (Valid), equality, the evidence dictionary and `prune_unreferenced_evidence` (Prune),
--     with the references of a state stated apart from the code (Prune.References).
--   Codec: the JSON forms of state_models.py, with a definition for each `_parse_` function.
--     Codec.Whole has the round trip of a state, Codec.Read what is known of a state that is read,
--     Codec.Marker the round trip of an enrollment marker.
--   Transition: `validate_transition` of state_machine.py, one definition for each source phase. The
--     table of the transitions that it accepts is Transition.Legal, with the authority admission
--     (Admits) and the initial enrolment (Mirrors); chains of accepted writes, Transition.Chain.
--   Frame: binary_frame.py, on lists of byte values.
--   Json: canonical_json.py. A dictionary is the list of its members, with each key once; Json.Order
--     is about the order in which they are written.
--   Platform: what the slot files rest on, as parameters.
--   Selector: slot_selector.py. Its rule stated apart from the code is Selector.Chosen; what a write
--     to the inactive slot does to the selection, Selector.Write.
--   Abort and Rollback: precommit_abort.py and rollback_controller.py.
--   Activation: activation.py, with the slot store as an argument that says which writes it
--     acknowledges. A write that is not acknowledged may still have reached the disk.
--     What is written is Activation.Writes, what a reported commit has done Activation.Commits.
--   Recovery: recovery_engine.py, on a disk of two slot files. Recovery.Rank bounds the writes that
--     are left.
--   Samples and Tests: concrete states and the theorems at them.
-- Launcher, for launcher/src/neko_launcher/domain and application:
--   Domain: the application state of domain/models.py.
--   Activity: software_update_activity.py.
--   Policy: `evaluate_release` of software_update_policy.py with the records of
--     software_update_models.py.
--   Reconnect: reconnect.py; Reconnect.Runs has the sequences of calls on a controller.
--   Tests: the theorems at concrete states.
-- Release, for scripts:
--   Ledger: production_sequence_ledger.py, the append-only ledger of release sequences. Lines has
--     `bytes.splitlines`, Lifecycle the checks on an event, Verify the verification of a file,
--     Session the writes, Reconcile the comparison with the authenticated history, Supersession the
--     withdrawal of a signed release. Histories says which histories a sequence can have.
--   Ledger.Samples and Ledger.Tests: a concrete ledger and the theorems at it.
--   The launcher's canonical JSON is the text form of the ledger's lines; the release sequences that
--     the ledger gives out are those that the update policy compares.
--
-- Numbers are natural numbers, as Python's are unbounded; a number that is packed keeps the width of
-- its field. A `Literal` of strings is a data type. An exception is a value of `Exn` with its message
-- up to the interpolated part. Run-time tests of Python types are types here. Equality of dictionaries
-- is equality of their contents. The recovery loop runs on fuel: five rounds are enough, since a rank
-- of at most four falls with every write. The printer of decimal numbers has one unit of fuel more
-- than the number. Two JSON values are equal here if they are the same, whereas Python takes `True`
-- for `1`.
--
-- Parameters: SHA-256 with its digest size; in the selector and in what is above it, the text form
-- of a state, which is assumed to be read back only for the states that a theorem names; the
-- verification of an envelope; which release and scratch directories exist; random identifiers; the
-- clock; the numeric type of a delay; for JSON, the parser with its UTF-8 decoding, which is assumed
-- to find in a text the value that was just printed, and the conversions `int(s)` and `str(v)`. A
-- failed write and the text of a recovery result's `error` are not modelled.
--
-- Not modelled: `migrate_state`, the parser of a release document, the Win32 slot store, enrolment,
-- the broker's pipes and processes, archive reading, the gateways, the user interface, the
-- other release scripts, the ledger's file lock, and the snapshots that a supersession builds itself.
pub mod Prelude
pub mod Updater
pub mod Launcher
pub mod Release
