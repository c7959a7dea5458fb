-- ===== src/Fleet/Enrollment.antt =====
-- Enrollment and authentication of agents (`enroll` and `_authenticate_agent` of
-- control-api/app/routers/fleet.py).
use kdb_distributed_controlp.Prelude.{
  ℕ, ◌≡◌, refl, String, none, some, List, [], ◌∷◌, if◌then◌else◌, arith, Result, ok, err,
  ok-injective, sym, ap, inl, inr, eq_iff, Option-cases,
}
use kdb_distributed_controlp.Prelude.Exec.{◌>>=◌, ◌>>◌}
use kdb_distributed_controlp.Fleet.Store.{
  Agent, online, Db, HttpError, http, find_agent, find_token, put_agent,
}
use kdb_distributed_controlp.Fleet.Router.{log_event, Passwords, enroll, authenticate_agent}

-- The ids of the rows are distinct (the primary key).
unfoldable pub IsKeyed : List Agent → Type 0
IsKeyed [] = Unit {0}
IsKeyed (a ∷ rows) = (find_agent a.id rows ≡ none) × IsKeyed rows

-- `token` is in use: its row is found, by its id too.
find-token :
    (token : String) (rows : List Agent) (a : Agent)
    → IsKeyed rows
    → find_token token rows ≡ some a
    → find_agent a.id rows ≡ some a
unfolding IsKeyed find_token find_agent
find-token token [] a keyed found = absurd (cc)
find-token token (b ∷ rows) a keyed found = grind (arith, find-token token rows a keyed.1)

find-id : (id : ℕ) (rows : List Agent) (a : Agent) → find_agent id rows ≡ some a → a.id ≡ id
unfolding find_agent
find-id id [] a found = absurd (cc)
find-id id (b ∷ rows) a found = ground (arith, find-id id rows a)

-- The row that is written back is the one found by its id and by its token.
find-put :
    (b : Agent) (rows : List Agent) (a : Agent)
    → find_agent b.id rows ≡ some a
    → find_agent b.id (put_agent b rows) ≡ some b
unfolding find_agent put_agent
find-put b [] a found = absurd (cc)
find-put b (c ∷ rows) a found = ground (arith, find-put b rows a)

find_token-put :
    (token : String) (b : Agent) (rows : List Agent) (a : Agent)
    → find_token token rows ≡ some a
    → b.id ≡ a.id
    → b.enrollment_token ≡ token
    → find_token token (put_agent b rows) ≡ some b
unfolding find_token put_agent
find_token-put token b [] a found same mine = absurd (cc)
find_token-put token b (c ∷ rows) a found same mine =
    grind (arith, eq_iff b.enrollment_token token, find_token-put token b rows a)

find_token-token :
    (token : String) (rows : List Agent) (a : Agent)
    → find_token token rows ≡ some a
    → a.enrollment_token ≡ token
unfolding find_token
find_token-token token [] a found = absurd (cc)
find_token-token token (b ∷ rows) a found =
    ground (arith, eq_iff b.enrollment_token token, find_token-token token rows a)

module _ (p : Passwords) where
  open p use {hash_password, verify_password}

  -- The row of an agent that has enrolled with `secret` is found by its token and by its id.
  pub record IsEnrolled (token secret : String) (id : ℕ) (db : Db) : Type 0 where
    pub agent : Agent
    pub by_id : find_agent id db.agents ≡ some agent
    pub by_token : find_token token db.agents ≡ some agent
    pub stored : agent.agent_secret_hash ≡ some (hash_password secret)
    pub status : agent.status ≡ online

  abbrev enrolled : String → ℕ → Agent → Agent
  enrolled secret now a = record a {
    agent_secret_hash = some (hash_password secret);
    status = online;
    last_heartbeat = some now;
  }

  put_enrolled :
      (token secret : String) (now id : ℕ) (a : Agent) (db db' : Db)
      → IsKeyed db.agents
      → find_token token db.agents ≡ some a
      → db'.agents ≡ put_agent (enrolled secret now a) db.agents
      → a.id ≡ id
      → IsEnrolled token secret id db'
  put_enrolled token secret now id a db db' keyed found after same = record {
    agent = enrolled secret now a;
    by_id =
        rw (after, sym same)
          (find-put (enrolled secret now a) db.agents a (find-token token db.agents a keyed found));
    by_token = rw after (
        find_token-put token (enrolled secret now a) db.agents a found refl
          (find_token-token token db.agents a found));
    stored = refl;
    status = refl;
  }

  abbrev key_of : (ℕ × String) → Result HttpError (ℕ × String) → ℕ × String
  key_of d (ok k) = k
  key_of d (err e) = d

  enroll-IsEnrolled :
      (token secret : String) (now id : ℕ) (key : String) (db : Db)
      → IsKeyed db.agents
      → (enroll p token secret now db).0 ≡ ok (id, key)
      → IsEnrolled token secret id (enroll p token secret now db).1 × (key ≡ secret)
  unfolding enroll log_event ◌>>=◌ ◌>>◌
  enroll-IsEnrolled token secret now id key db keyed done =
      elim (Option-cases (find_token token db.agents)) [
        | inl e ↦ absurd (cc (rw e at done))
        | inr (a, e) ↦ rw e (elim (Option-cases a.agent_secret_hash) [
          | inl free ↦ rw free (
              let keys = ok-injective _ _ (rw (e, free) at done) in
              (
                put_enrolled token secret now id a db _ keyed e refl (ap (λ k. k.0) keys),
                sym (ap (λ k. k.1) keys),
              ))
          | inr (old, used) ↦ absurd (cc (rw (e, used) at done))
        ])
      ]

  enroll-used :
      (token secret : String) (id : ℕ) (db : Db) (secret' : String) (now' : ℕ)
      → IsEnrolled token secret id db
      → enroll p token secret' now' db ≡ (err (http 409), db)
  unfolding enroll ◌>>=◌ ◌>>◌
  enroll-used token secret id db secret' now' row = rw (row.by_token, row.stored) refl

  authenticate_agent-enrolled :
      (token secret : String) (id : ℕ) (db : Db) (tried : String)
      → (row : IsEnrolled token secret id db)
      → authenticate_agent p id tried db ≡ (
        if verify_password tried (hash_password secret) then ok row.agent else err (http 401),
        db,
      )
  unfolding authenticate_agent ◌>>=◌ ◌>>◌
  authenticate_agent-enrolled token secret id db tried row =
      rw (row.by_id, row.stored, row.status) (ground (arith))

  -- A token enrolls once. Where ids are distinct and `enroll` gave out an agent id and a secret, the same
  -- token is refused with 409 afterwards and the tables stay as they are.
  pub enroll_once :
      (token secret : String) (now id : ℕ) (key : String) (db : Db) (secret' : String) (now' : ℕ)
      → IsKeyed db.agents
      → (enroll p token secret now db).0 ≡ ok (id, key)
      → enroll p token secret' now' (enroll p token secret now db).1
        ≡ (err (http 409), (enroll p token secret now db).1)
  enroll_once token secret now id key db secret' now' keyed done =
      enroll-used token secret id _ secret' now'
        (enroll-IsEnrolled token secret now id key db keyed done).0

  -- Where ids are distinct and `enroll` gave out an agent id and a secret, the agent is authenticated
  -- with exactly the secrets that `verify_password` accepts against the hash of that one; any other is
  -- answered 401. The tables stay as they are.
  pub enroll_authenticates :
      (token secret : String) (now id : ℕ) (key tried : String) (db : Db)
      → IsKeyed db.agents
      → (enroll p token secret now db).0 ≡ ok (id, key)
      → (agent : Agent) × (agent.id ≡ id)
        × (authenticate_agent p id tried (enroll p token secret now db).1 ≡ (
          if verify_password tried (hash_password key) then ok agent else err (http 401),
          (enroll p token secret now db).1,
        ))
  enroll_authenticates token secret now id key tried db keyed done =
      let (row, same) = enroll-IsEnrolled token secret now id key db keyed done in
      (
        row.agent,
        find-id id _ row.agent row.by_id,
        rw same (authenticate_agent-enrolled token secret id _ tried row),
      )
