-- ===== src/MemoryGate.antt =====
-- agent_os/memory_gate.py: a memory write goes through the policy engine of its connector.
pub mod Writes
mod Tests
use agent_os_langgraph.Prelude.{
  ℕ, ◌≡◌, refl, Bool, true, false, not, Option, none, some, List, [], ◌∷◌, ◌++◌, if◌then◌else◌,
  Result, ok, err, value_error, select, is_empty, ◌&&◌,
}
use agent_os_langgraph.Text.{Str, text, mem_str, strip}
use agent_os_langgraph.Permissions.{RuleStore}
use agent_os_langgraph.Schemas.{
  Value, str, other, Arguments, ActionProposal, write, Verdict, allow, deny, require_approval,
  PolicyDecision, Status, completed, failed, cancelled, waiting, ExecutionResult,
  memory_write_modes,
}
use agent_os_langgraph.Policy.Local.{PolicyState}
use agent_os_langgraph.Policy.Apply.{Engine, Asked, Execute, apply_policy}

pub record MemoryWriteResult : Type 0 where
  pub ref : Str
  pub mode : Str
  pub bytes_written : Option ℕ
  pub committed : Bool
  pub status : Status
  pub error : Option Str

-- `ref` and `mode` of a `MemoryWriteProposal`; its preview is not read here.
pub record WriteProposal : Type 0 where
  pub ref : Str
  pub mode : Str

-- A `WritableMemory`: its name, the modes that it declares (`none` where it declares none), and
-- `write_note` on a vault, which may raise.
pub record Connector (V : Type 0) : Type 0 where
  pub name : Str
  pub supported_write_modes : Option (List Str)
  pub write_note : Str → Str → V → Result MemoryWriteResult × V

unfoldable pub write_action : Str → Str → Str → ActionProposal
write_action connector ref mode = record {
  tool = text "memory.write";
  arguments = (text "ref", str ref) ∷ (text "mode", str mode) ∷ [];
  reason = [];
  side_effect = write;
  connector = some connector;
}

pub data Gating : Type 0 where
  auto gate : Gating

-- The status with which `status` is printed.
unfoldable pub status_name : Status → Str
status_name completed = text "completed"
status_name failed = text "failed"
status_name cancelled = text "cancelled"
status_name waiting = text "waiting"

-- `"; ".join(…)`
unfoldable pub join_errors : List Str → Str
join_errors [] = []
join_errors (e ∷ []) = e
join_errors (e ∷ f ∷ es) = e ++ (text "; " ++ join_errors (f ∷ es))

-- The errors that are not blank.
unfoldable pub shown_errors : List Str → Str
unfolding join_errors
shown_errors es = join_errors (select (λ e. not (is_empty (strip e))) es)

unfoldable pub not_written : WriteProposal → Status → Str → MemoryWriteResult
not_written p status error = record {
  ref = p.ref;
  mode = p.mode;
  bytes_written = none;
  committed = false;
  status = status;
  error = some error;
}

-- The error that a result without one gets.
unfoldable pub error_of : ExecutionResult → Str
unfolding shown_errors status_name
error_of r =
    let shown = shown_errors r.errors in
    if is_empty shown
    then text "Memory write " ++ (status_name r.status ++ text " before it reached the connector.")
    else shown

abbrev supported : Option (List Str) → List Str
supported none = memory_write_modes
supported (some ms) = ms

abbrev pub is_completed : Status → Bool
is_completed completed = true
is_completed _ = false

module _ (S : RuleStore) where
  unfoldable pub evaluate_write_policy :
      Engine S → ℕ → Str → Str → Str → PolicyState S → Gating × PolicyState S
  unfolding write_action
  evaluate_write_policy engine now connector ref mode s =
      let (d, s') = engine.evaluate now (write_action connector ref mode) s in
      (elim d.decision [ allow ↦ auto | _ ↦ gate ], s')

  module _ {V : Type 0} where
    -- `_execute`, which also leaves the connector's result in `write_result`; `shown` is what `str()`
    -- gives of that result.
    abbrev executed :
        (MemoryWriteResult → Str)
        → Result MemoryWriteResult × V
        → Result ExecutionResult × (V × Option MemoryWriteResult)
    executed shown (ok r, v) = (
      ok (record {
        status = completed;
        outputs = (text "result", other (shown r)) ∷ [];
        errors = [];
        artifacts = [];
      }),
      (v, some r),
    )
    executed shown (err e, v) = (err e, (v, none))

    unfoldable pub execute_write :
        Connector V
        → (MemoryWriteResult → Str)
        → WriteProposal
        → Execute (V × Option MemoryWriteResult)
    execute_write c shown p action (v, written) = executed shown (c.write_note p.ref p.mode v)

    -- What is returned when the policy has run.
    abbrev returned :
        WriteProposal
        → Result ExecutionResult × PolicyState S × (V × Option MemoryWriteResult)
        → Result MemoryWriteResult × PolicyState S × V
    returned p (err e, s, (v, written)) = (err e, s, v)
    returned p (ok r, s, (v, none)) = (ok (not_written p r.status (error_of r)), s, v)
    returned p (ok r, s, (v, some written)) =
        (ok (if is_completed r.status then written else not_written p r.status (error_of r)), s, v)

    unfoldable pub gated_write :
        Engine S
        → Asked
        → (MemoryWriteResult → Str)
        → Connector V
        → WriteProposal
        → PolicyState S
        → V
        → Result MemoryWriteResult × PolicyState S × V
    unfolding not_written error_of write_action execute_write
    gated_write engine asked shown c p s v =
        if not (mem_str p.mode memory_write_modes)
        then (
          err (value_error (text "Unsupported memory write mode: '" ++ (p.mode ++ text "'"))),
          s,
          v,
        )
        else if not (mem_str p.mode (supported c.supported_write_modes))
        then (
          ok (
              not_written p failed (
                text "Memory connector '"
                ++ (c.name ++ (text "' does not safely support mode '" ++ (p.mode ++ text "'."))))),
          s,
          v,
        )
        else returned p (
            apply_policy S engine asked (execute_write c shown p) (write_action c.name p.ref p.mode)
              s (v, none))
