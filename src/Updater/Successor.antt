-- ===== src/Updater/Successor.antt =====
-- What every state that the update helper builds from another one shares with it.
use neko_family_proxy.Prelude.{◌+◌, String, ◌≡◌, none, if◌then◌else◌}
use neko_family_proxy.Updater.Models.{State}
use neko_family_proxy.Updater.Models.Evidence.{lookup, contains}
use neko_family_proxy.Updater.Models.Prune.{referenced, kept_evidence, lookup-kept_evidence}

-- The next revision of the same installation, with the same floors, and with the evidence of the
-- bindings that it refers to.
pub record Successor (s n : State) : Type 0 where
  pub revision : n.revision ≡ s.revision + 1
  pub installation : n.installation_id ≡ s.installation_id
  pub protocol : n.helper_protocol ≡ s.helper_protocol
  pub enrollment : n.enrollment_complete ≡ s.enrollment_complete
  pub highwater : n.highwater ≡ s.highwater
  pub observed : n.observed ≡ s.observed
  pub evidence :
      (k : String)
      → lookup k n.evidence ≡ (if contains (referenced n) k then lookup k s.evidence else none)

-- A state as it is once its evidence is pruned.
abbrev pub settled : State → State
settled s = record s { evidence = kept_evidence s }

pub lookup-settled :
    (k : String) (s : State)
    → lookup k (settled s).evidence
      ≡ (if contains (referenced (settled s)) k then lookup k s.evidence else none)
unfolding referenced
lookup-settled k s = lookup-kept_evidence k s
