-- ===== src/MemoryGate/Writes.antt =====
-- agent_os/memory_gate.py: the calls of the connector that `gated_write` makes.
use agent_os_langgraph.Prelude.{
  ◌≡◌, ◌≢◌, refl, true, false, ◌⊎◌, inl, inr, Option, none, some, arith, Bool-cases, Result, ok,
  err,
}
use agent_os_langgraph.Text.{Str, mem_str}
use agent_os_langgraph.Permissions.{RuleStore}
use agent_os_langgraph.Schemas.{completed, ExecutionResult, memory_write_modes}
use agent_os_langgraph.Policy.Local.{PolicyState}
use agent_os_langgraph.Policy.Feedback.{normalize_policy_feedback}
use agent_os_langgraph.Policy.Apply.{Engine, Asked, apply_policy}
use agent_os_langgraph.Policy.Apply.Consent.{Consent, DidNotRun, apply_policy-runs_agreed}
use agent_os_langgraph.MemoryGate.{
  MemoryWriteResult, WriteProposal, Connector, write_action, not_written, gated_write,
  execute_write, executed, returned, supported,
}

-- A call that changed nothing and committed nothing.
abbrev pub NotCommitted : Result MemoryWriteResult → Type 0
NotCommitted (ok r) = (r.committed ≡ false) × (r.status ≢ completed)
NotCommitted (err e) = Unit

module _ (S : RuleStore) {V : Type 0} where
  abbrev Wrote : Connector V → WriteProposal → V → Result MemoryWriteResult × V → Type 0
  Wrote c p v o = c.write_note p.ref p.mode v ≡ o

  returned-ran :
      (shown : MemoryWriteResult → Str) (p : WriteProposal) (o : Result MemoryWriteResult × V)
      (r : Result ExecutionResult) (s : PolicyState S) (w : V × Option MemoryWriteResult)
      → executed S shown o ≡ (r, w)
      → let (r', s', v') = returned S p (r, s, w) in o ≡ (r', v')
  returned-ran shown p (ok x, v) r s w e = ground arith
  returned-ran shown p (err x, v) r s w e = ground arith

  returned-idle :
      (p : WriteProposal) (r : Result ExecutionResult) (s : PolicyState S)
      (w : V × Option MemoryWriteResult) (v : V)
      → DidNotRun r
      → w ≡ (v, none)
      → let (r', s', v') = returned S p (r, s, w) in NotCommitted r' × (v' ≡ v)
  unfolding not_written
  returned-idle p (err x) s (v', o) v h e = (tt, ground arith)
  returned-idle p (ok r) s (v', none) v h e = ((refl, h), ground arith)
  returned-idle p (ok r) s (v', some x) v h e = absurd (cc)

  module _ (engine : Engine S) (asked : Asked) (shown : MemoryWriteResult → Str) (c : Connector V)
      (p : WriteProposal) where
    -- What lets a write through: its mode, and consent to exactly this action of this connector.
    pub record Cleared (s : PolicyState S) : Type 0 where
      pub mode_known : mem_str p.mode memory_write_modes ≡ true
      pub mode_supported : mem_str p.mode (supported c.supported_write_modes) ≡ true
      pub consent :
          Consent
            (engine.evaluate asked.now (write_action c.name p.ref p.mode) s).0.decision
            (normalize_policy_feedback asked.lower asked.answer)

    -- Either the connector was called once and its own result, or its exception, is what the caller
    -- gets, and the write was cleared; or the vault is as it was and nothing is reported committed.
    pub gated_write-Cleared :
        (s : PolicyState S) (v : V)
        → let (r, s', v') = gated_write S engine asked shown c p s v in
          ((c.write_note p.ref p.mode v ≡ (r, v')) × Cleared s) ⊎ (NotCommitted r × (v' ≡ v))
    unfolding gated_write not_written
    gated_write-Cleared s v = elim (Bool-cases (mem_str p.mode memory_write_modes)) [
      | inr unknown ↦ rw unknown (inr (tt, refl))
      | inl known ↦ elim (Bool-cases (mem_str p.mode (supported c.supported_write_modes))) [
        | inr unsupported ↦ rw (known, unsupported) (inr ((refl, λ e. cc), refl))
        | inl ok_mode ↦
            let action = write_action c.name p.ref p.mode in
            let o = apply_policy S engine asked (execute_write S c shown p) action s (v, none) in
            elim (apply_policy-runs_agreed S (execute_write S c shown p) action (v, none) engine
              asked s) [
                | inl (ran, consent) ↦
                    rw (known, ok_mode)
                      (inl (
                        returned-ran shown p (c.write_note p.ref p.mode v) o.0 o.1 o.2
                            (unfold execute_write in ran),
                        record { mode_known = known; mode_supported = ok_mode; consent = consent },
                      ))
                | inr (idle, same) ↦
                    rw (known, ok_mode) (inr (returned-idle p o.0 o.1 o.2 v idle same))
              ]
      ]
    ]
