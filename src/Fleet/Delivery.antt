-- ===== src/Fleet/Delivery.antt =====
-- Delivery of commands (`heartbeat` and `report_command_result` of
-- control-api/app/routers/fleet.py): what one heartbeat hands out, and what a history of requests
-- can hand out.
use kdb_distributed_controlp.Prelude.{
  ℕ, zero, suc, ◌+◌, ◌-◌, ◌≤◌, ◌≡◌, refl, ap, true, false, some, take, Bool-cases, inl, inr, ◌&&◌,
  List, [], ◌∷◌, ◌++◌, map, if◌then◌else◌, ◌==◌, min, All, length, arith,
}
use kdb_distributed_controlp.Fleet.Store.{
  Command, CommandStatus, queued, dispatched, success, failure, is_queued, put_command,
}
use kdb_distributed_controlp.Fleet.Router.{dispatch_queued}

-- the queued rows that carry an id, and those of an agent
unfoldable pub queued_with : ℕ → List Command → ℕ
queued_with id [] = 0
queued_with id (c ∷ rows) =
    let rest = queued_with id rows in if c.id == id && is_queued c.status then suc rest else rest

unfoldable pub queued_for : ℕ → List Command → ℕ
queued_for agent [] = 0
queued_for agent (c ∷ rows) =
    let rest = queued_for agent rows in
    if c.agent_id == agent && is_queued c.status then suc rest else rest

unfoldable pub with_id : ℕ → List Command → ℕ
with_id id [] = 0
with_id id (c ∷ rows) = let rest = with_id id rows in if c.id == id then suc rest else rest

abbrev pub ids : List Command → List ℕ
ids = map {A = Command} (λ c. c.id)

abbrev pub IsSentTo : ℕ → Command → Type 0
IsSentTo agent c = (c.agent_id ≡ agent) × (c.status ≡ dispatched)

-- the queued rows of an agent, in the table's order
unfoldable pub queue_of : ℕ → List Command → List Command
queue_of agent [] = []
queue_of agent (c ∷ rows) =
    let rest = queue_of agent rows in
    if c.agent_id == agent && is_queued c.status then c ∷ rest else rest

abbrev pub as_dispatched : ℕ → Command → Command
as_dispatched now c = record c { status = dispatched; dispatched_at = some now }

-- One table becomes another: the rows in a list are written, in their order, as dispatched to an agent, and
-- every other row stays.
pub data Delivered (agent now : ℕ) : (sent before after : List Command) → Type 0 where
  delivers_none : Delivered agent now [] [] []
  keeps :
      (c : Command) (sent before after : List Command)
      → Delivered agent now sent before after
      → Delivered agent now sent (c ∷ before) (c ∷ after)
  delivers :
      (c : Command) (sent before after : List Command)
      → c.agent_id ≡ agent
      → c.status ≡ queued
      → Delivered agent now sent before after
      → Delivered agent now (as_dispatched now c ∷ sent) (c ∷ before) (as_dispatched now c ∷ after)

keeps_all : (agent now : ℕ) (rows : List Command) → Delivered agent now [] rows rows
keeps_all agent now [] = delivers_none
keeps_all agent now (c ∷ rows) = keeps c [] rows rows (keeps_all agent now rows)

is_queued-queued : (s : CommandStatus) → is_queued s ≡ true → s ≡ queued
is_queued-queued queued h = refl
is_queued-queued dispatched h = absurd (cc)
is_queued-queued success h = absurd (cc)
is_queued-queued failure h = absurd (cc)

-- What `dispatch_queued` hands out is what it writes.
pub dispatch-Delivered :
    (agent now limit : ℕ) (rows : List Command)
    → let (sent, after) = dispatch_queued agent now limit rows in
      Delivered agent now sent rows after
unfolding dispatch_queued
dispatch-Delivered agent now zero [] = delivers_none
dispatch-Delivered agent now (suc limit) [] = delivers_none
dispatch-Delivered agent now zero (c ∷ rows) = keeps_all agent now (c ∷ rows)
dispatch-Delivered agent now (suc limit) (c ∷ rows) =
    elim (Bool-cases (c.agent_id == agent && is_queued c.status)) [
      | inl own ↦ rw own (
          delivers c _ rows _ (ground arith) (is_queued-queued c.status (ground arith))
            (dispatch-Delivered agent now limit rows))
      | inr other ↦ rw other (keeps c _ rows _ (dispatch-Delivered agent now (suc limit) rows))
    ]

-- It hands out the first rows of the agent's queue.
pub dispatch_queue :
    (agent now limit : ℕ) (rows : List Command)
    → (dispatch_queued agent now limit rows).0
      ≡ map (as_dispatched now) (take limit (queue_of agent rows))
unfolding dispatch_queued queue_of
dispatch_queue agent now zero [] = refl
dispatch_queue agent now (suc limit) [] = refl
dispatch_queue agent now zero (c ∷ rows) = refl
dispatch_queue agent now (suc limit) (c ∷ rows) =
    elim (Bool-cases (c.agent_id == agent && is_queued c.status)) [
      | inl own ↦ rw own (ap (λ cs. as_dispatched now c ∷ cs) (dispatch_queue agent now limit rows))
      | inr other ↦ rw other (dispatch_queue agent now (suc limit) rows)
    ]

-- What `dispatch_queued` hands out is no longer queued, and every other queued row stays.
pub dispatch_conserves :
    (agent now limit id : ℕ) (rows : List Command)
    → with_id id (dispatch_queued agent now limit rows).0
        + queued_with id (dispatch_queued agent now limit rows).1
      ≡ queued_with id rows
unfolding dispatch_queued queued_with with_id
dispatch_conserves agent now limit id [] = refl
dispatch_conserves agent now zero id (c ∷ rows) = omega arith
dispatch_conserves agent now (suc limit) id (c ∷ rows) = ground (
  arith,
  dispatch_conserves agent now limit id rows,
  dispatch_conserves agent now (suc limit) id rows,
)

-- It hands out as many as there are, up to the limit.
pub dispatch_length :
    (agent now limit : ℕ) (rows : List Command)
    → length (dispatch_queued agent now limit rows).0 ≡ min limit (queued_for agent rows)
unfolding dispatch_queued queued_for
dispatch_length agent now zero [] = refl
dispatch_length agent now (suc limit) [] = omega arith
dispatch_length agent now zero (c ∷ rows) = ground arith
dispatch_length agent now (suc limit) (c ∷ rows) =
    ground (arith, dispatch_length agent now limit rows, dispatch_length agent now (suc limit) rows)

pub dispatch_left :
    (agent now limit : ℕ) (rows : List Command)
    → queued_for agent (dispatch_queued agent now limit rows).1 ≡ queued_for agent rows - limit
unfolding dispatch_queued queued_for
dispatch_left agent now zero [] = refl
dispatch_left agent now (suc limit) [] = omega arith
dispatch_left agent now zero (c ∷ rows) = omega arith
dispatch_left agent now (suc limit) (c ∷ rows) =
    ground (arith, dispatch_left agent now limit rows, dispatch_left agent now (suc limit) rows)

pub dispatch_sent :
    (agent now limit : ℕ) (rows : List Command)
    → All (IsSentTo agent) (dispatch_queued agent now limit rows).0
unfolding dispatch_queued
dispatch_sent agent now zero [] = tt
dispatch_sent agent now (suc limit) [] = tt
dispatch_sent agent now zero (c ∷ rows) = tt
dispatch_sent agent now (suc limit) (c ∷ rows) =
    ground (arith, dispatch_sent agent now limit rows, dispatch_sent agent now (suc limit) rows)

pub ids-dispatch :
    (agent now limit : ℕ) (rows : List Command)
    → ids (dispatch_queued agent now limit rows).1 ≡ ids rows
unfolding dispatch_queued
ids-dispatch agent now zero [] = refl
ids-dispatch agent now (suc limit) [] = refl
ids-dispatch agent now zero (c ∷ rows) = refl
ids-dispatch agent now (suc limit) (c ∷ rows) =
    ground (arith, ids-dispatch agent now limit rows, ids-dispatch agent now (suc limit) rows)

-- A row that is written back with a result leaves no more queued rows than there were.
pub queued_with-put :
    (id : ℕ) (d : Command) (rows : List Command)
    → is_queued d.status ≡ false
    → queued_with id (put_command d rows) ≤ queued_with id rows
unfolding queued_with put_command
queued_with-put id d [] done = omega arith
queued_with-put id d (c ∷ rows) done = ground (arith, queued_with-put id d rows)

-- A row is added at the end.
pub queued_with-add :
    (id : ℕ) (rows : List Command) (c : Command)
    → queued_with id (rows ++ c ∷ [])
      ≡ queued_with id rows + (if c.id == id && is_queued c.status then 1 else 0)
unfolding queued_with
queued_with-add id [] c = ground arith
queued_with-add id (d ∷ rows) c = ground (arith, queued_with-add id rows c)

pub with_id-append :
    (id : ℕ) (xs ys : List Command) → with_id id (xs ++ ys) ≡ with_id id xs + with_id id ys
unfolding with_id
with_id-append id [] ys = omega arith
with_id-append id (c ∷ xs) ys = ground (arith, with_id-append id xs ys)
