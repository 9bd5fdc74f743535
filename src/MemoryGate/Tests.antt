-- ===== src/MemoryGate/Tests.antt =====
-- A gated write to a vault that keeps the refs written to it.
use agent_os_langgraph.Prelude.{◌≡◌, true, ◌⊎◌, none, some, List, [], ◌∷◌, ok}
use agent_os_langgraph.Text.{Str, text}
use agent_os_langgraph.Permissions.InMemory.{store}
use agent_os_langgraph.Schemas.{str, completed}
use agent_os_langgraph.Policy.Local.{manual, PolicyState}
use agent_os_langgraph.Policy.Apply.{Engine, Asked}
use agent_os_langgraph.Policy.Apply.Remembered.{local}
use agent_os_langgraph.MemoryGate.{MemoryWriteResult, WriteProposal, Connector, gated_write}
use agent_os_langgraph.MemoryGate.Writes.{Cleared, NotCommitted, gated_write-Cleared}

abbrev vault : Connector (List Str)
vault = record {
  name = text "vault";
  supported_write_modes = none;
  write_note = λ ref mode v. (
    ok (record {
      ref = ref;
      mode = mode;
      bytes_written = some 3;
      committed = true;
      status = completed;
      error = none;
    }),
    ref ∷ v,
  );
}

abbrev to_log : WriteProposal
to_log = record { ref = text "AI/Logs/day.md"; mode = text "append" }

abbrev manual_engine : Engine store
manual_engine = local store (record { mode = manual; session_key = none })

abbrev nobody : Asked
nobody = record {
  lower = λ s. s;
  now = 9;
  answer = str (text "no");
  workspace_id = none;
  taught_by = text "ana";
}

abbrev empty : PolicyState store
empty = record { grants = []; rules = none }

abbrev shown : MemoryWriteResult → Str
shown r = r.ref

gated_write-Cleared_example :
    let (r, s', v') = gated_write store manual_engine nobody shown vault to_log empty [] in
    ((vault.write_note to_log.ref to_log.mode [] ≡ (r, v'))
      × Cleared store manual_engine nobody shown vault to_log empty)
    ⊎ (NotCommitted r × (v' ≡ []))
gated_write-Cleared_example =
    gated_write-Cleared store manual_engine nobody shown vault to_log empty []
