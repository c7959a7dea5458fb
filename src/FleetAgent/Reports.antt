-- ===== src/FleetAgent/Reports.antt =====
-- Every command that a heartbeat of fleet_agent/agent.py pulls is reported on.
use kdb_distributed_controlp.Prelude.{
  ℕ, ◌≡◌, refl, ap, ◌∙◌, String, Option, none, some, List, [], ◌∷◌, ◌⊎◌, arith, length, ok, All,
  Option-cases, inl, inr,
}
use kdb_distributed_controlp.FleetAgent.Loop.{
  Cmd, Report, Agent, Run, handle_provision, operated, handle_action, handle_command,
  report_outcome, handle_all, probed, tick,
}

-- the ids of commands put in front of a list, the last one first
unfoldable pub ids_onto : List Cmd → List ℕ → List ℕ
ids_onto [] seen = seen
ids_onto (c ∷ cs) seen = ids_onto cs (elim c.id [ none ↦ seen | some id ↦ id ∷ seen ])

abbrev pub report_ids : List Report → List ℕ
report_ids [] = []
report_ids (r ∷ rs) = r.id ∷ report_ids rs

abbrev pub IsOutcome : Report → Type 0
IsOutcome r = (r.outcome ≡ "success") ⊎ (r.outcome ≡ "failure")

-- reports put in front of a list, the last one first
abbrev pub reports_onto : List Report → List Report → List Report
reports_onto [] seen = seen
reports_onto (r ∷ rs) seen = reports_onto rs (r ∷ seen)

module _ {W : Type 0} (agent : Agent W) where
  open agent use {report_result}

  -- The reports that commands call for, in their order, and the world at the end: each command is handled in
  -- the world that the one before it and its report left.
  unfoldable pub called_for : List Cmd → W → List Report × W
  called_for [] w = ([], w)
  called_for (c ∷ cmds) w =
      let ((outcome, detail), w') = handle_command agent c w in
      elim c.id [
        | none ↦ called_for cmds w'
        | some id ↦
            let r : Report = record { id = id; outcome = outcome; detail = detail } in
            let (rs, end) = called_for cmds (report_result r w').1 in (r ∷ rs, end)
      ]

  -- a run after a list of reports
  abbrev pub has_reported : List Report × W → List Report → Run W
  has_reported (rs, w) seen = record { world = w; reported = reports_onto rs seen }

  handle_all-called_for :
      (cmds : List Cmd) (s : Run W)
      → handle_all agent cmds s ≡ has_reported (called_for cmds s.world) s.reported
  unfolding handle_all called_for report_outcome
  handle_all-called_for [] s = refl
  handle_all-called_for (c ∷ cmds) s = elim (Option-cases c.id) [
    | inl unnamed ↦ simp unnamed (handle_all-called_for cmds _)
    | inr (id, named) ↦ simp named (handle_all-called_for cmds _)
  ]

  report_outcome-ids :
      (id : Option ℕ) (result : String × String) (s : Run W)
      → report_ids (report_outcome agent id result s).reported
        ≡ (elim id [ none ↦ report_ids s.reported | some i ↦ i ∷ report_ids s.reported ])
  unfolding report_outcome
  report_outcome-ids none result s = refl
  report_outcome-ids (some id) result s = refl

  handle_all-ids :
      (cmds : List Cmd) (s : Run W)
      → report_ids (handle_all agent cmds s).reported ≡ ids_onto cmds (report_ids s.reported)
  unfolding handle_all report_outcome ids_onto
  handle_all-ids [] s = refl
  handle_all-ids (c ∷ cmds) s =
      let (result, w) = handle_command agent c s.world in
      handle_all-ids cmds (report_outcome agent c.id result (record s { world = w }))
      ∙ ap (ids_onto cmds) (report_outcome-ids c.id result (record s { world = w }))

  handle_command-outcome :
      (cmd : Cmd) (w : W)
      → ((handle_command agent cmd w).0.0 ≡ "success")
        ⊎ ((handle_command agent cmd w).0.0 ≡ "failure")
  unfolding handle_command handle_action handle_provision operated
  handle_command-outcome cmd w = ground arith

  report_outcome-IsOutcome :
      (id : Option ℕ) (result : String × String) (s : Run W)
      → (result.0 ≡ "success") ⊎ (result.0 ≡ "failure")
      → All IsOutcome s.reported
      → All IsOutcome (report_outcome agent id result s).reported
  unfolding report_outcome
  report_outcome-IsOutcome none result s known before = before
  report_outcome-IsOutcome (some id) result s known before = (known, before)

  handle_all-IsOutcome :
      (cmds : List Cmd) (s : Run W)
      → All IsOutcome s.reported
      → All IsOutcome (handle_all agent cmds s).reported
  unfolding handle_all
  handle_all-IsOutcome [] s before = before
  handle_all-IsOutcome (c ∷ cmds) s before =
      let (result, w) = handle_command agent c s.world in
      handle_all-IsOutcome cmds (report_outcome agent c.id result (record s { world = w })) (
        report_outcome-IsOutcome c.id result (record s { world = w })
          (handle_command-outcome c s.world) before)

  -- Where the heartbeat of a cycle pulls some commands, the cycle handles all of them, whatever the
  -- backend, the service operation or the reports raise: each command is handled in the world that the ones
  -- before it and their reports left, and each that has an id is reported once, in the order in which they
  -- came, with the outcome and the detail of its own handling. Every outcome reported is "success" or
  -- "failure" if those reported before are.
  pub tick_reports :
      (s : Run W) (cmds : List Cmd)
      → (let (status, w) = agent.status_probe s.world in agent.heartbeat (probed agent status) w).0
        ≡ ok cmds
      → All IsOutcome s.reported
      → ((tick agent s).0 ≡ ok (length cmds))
        × (report_ids (tick agent s).1.reported ≡ ids_onto cmds (report_ids s.reported))
        × All IsOutcome (tick agent s).1.reported
        × ((tick agent s).1 ≡ (
            let (status, w) = agent.status_probe s.world in
            has_reported (called_for cmds (agent.heartbeat (probed agent status) w).1) s.reported))
  unfolding tick
  tick_reports s cmds pulled before =
      rw (pulled, tick)
        (
          refl,
          handle_all-ids cmds _,
          handle_all-IsOutcome cmds _ before,
          handle_all-called_for cmds _,
        )
