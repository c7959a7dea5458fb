-- ===== src/Lib.antt =====
-- A verification library of the control plane of a distributed market-data system: shards of q processes
-- that are healed by a watchdog, and managed in customers' clusters through agents. The Python parts that
-- decide what runs where are modelled as functions, and their theorems are listed at the end.
--
-- Topology (control-api/app/topology.py): the shard count gives the letter ranges, the shards, the owner
-- of a symbol, and the names of the services. `ValueError` and `IndexError` are values of `Result`. The
-- copies of the file in watchdog/ and data-plane/feeds/ are the same bytes.
--
-- Watchdog (watchdog/): Flap is the sliding window and the cooldown of flap.py, Runbooks is the
-- classification and the remediations of runbooks.py, Pass is check_and_heal and the main loop of
-- watchdog.py. Their state is `Machine`: the tracker, the guard set `_in_progress`, and an abstract world
-- behind the orchestrator, whose calls may raise. Every `orchestrator.start` and every audit event is also
-- kept in a list, so that theorems can count them. Effects says what an action may do to the state.
--
-- Fleet (control-api/app/routers/fleet.py): Store has the tables of models.py that the endpoints read and
-- write, Router has one function for each endpoint, as a state and error monad (Prelude/Exec) in which
-- what was written before an HTTPException stays written. History runs any sequence of requests. bcrypt is
-- a parameter (`Passwords`), and so are the secrets that the library draws and the time.
--
-- FleetAgent (fleet_agent/provisioner.py, fleet_agent/agent.py): the reconcile core and the heartbeat
-- loop, over an abstract backend, client, service operation and status probe, each of which may raise.
--
-- Licensing (control-api/app/licensing.py): minting and validation of licence keys, with HMAC-SHA256 and
-- base32 as parameters (`Library`); dates are days since 2020-01-01 and texts are ASCII codes.
--
-- Accounts (control-api/app/routers/users.py, routers/tenants.py, and the guards and the login of
-- routers/auth.py): the tables of tenants and users, one function for each endpoint that changes them, and
-- histories of requests in Emails.
--
-- Trading (control-api/app/oms.py, risk_check.py, alpaca_broker.py, ibkr_broker.py, routers/trading.py):
-- Oms has the routers' fills and the position arithmetic, Brokers the switches and waits of the brokers'
-- clients, Risk the pre-trade gate, Router and Endpoints the endpoints. Floats are any carrier with the
-- operations that the code uses (`FloatOps`), with no law assumed. A `Desk` is what a request finds: the
-- environment's variables, the brokers' answers, the risk feed and the settings. What is sent to a broker
-- is kept in a list. Steps is the life of an order as a relation between tables, Placing and Matching show
-- that the endpoints only make such steps, and Book is the abstract view of the positions.
--
-- TickHouse (control-api/app/tickhouse.py): Spec has the specification of a cluster and the reading of
-- shard ranges, Hardware the tables of auto_hardware, Build validate_spec. What Python knows of letters,
-- cases and blanks is a parameter (`Unicode`); Ascii has what is relied on of it, on ASCII texts only. The
-- blanks of the target settings are ASCII. A value of the end-of-day settings that is not a whole number
-- is `none`. Auto has auto_spec and the payload, Router the endpoints of
-- control-api/app/routers/tickhouse.py over their table and the fleet's, and Histories any sequence of
-- requests. The gateway's settings and the attachment of a feed handler are left out; a row holds the
-- dictionary of its JSON text, which `json` is taken to give back.
--
-- The parts meet in four places: Watchdog/Order runs the watchdog's dependency rule on the services that
-- the topology lists, Fleet/Accepted follows a provision command from the endpoint to the agent's own
-- check, TickHouse/Accepted and Queued do the same for a validated specification, and Topology gives both
-- the desired state and the healed services.
--
-- Numbers: shard counts, ids, ports, seconds and times are natural numbers. A shard count or replica count
-- below 1 is 0 here, except in the agent's payload, where `Field` has the negative numbers and the values
-- of other types. Times are ticks: where the code subtracts a later time from an earlier one, both results
-- pass the same test. `upper` is that of ASCII letters. `decimal` takes its number as fuel, which is more
-- than its digits. The topology's results are evaluated for all 26 shard counts. `wait_loop` takes the
-- number of its tests as fuel: 21 for Alpaca and 16 for IBKR are enough, since the pauses between them use
-- the time up. `rounds` and `run` take the number of cycles: the loops of the program do not end, and a
-- theorem for every number is one for every moment of a run.
--
-- Not modelled: the web UI, the data plane (C++ feed handlers, q, feeds, exporters), deployment code, and
-- the other routers and services of the control API (queries, signals, portfolio valuation, the rendering
-- of TickHouses, single sign-on); the texts of log lines and of the risk gate's reasons; the volatility of
-- a list of prices (market.py), which the gate takes as a parameter; the caches of the brokers' clients;
-- the JSON and SQL libraries (a LIMIT is read as SQLite does), sessions and transactions (an endpoint runs
-- alone).
pub mod Prelude
pub mod Topology
pub mod Watchdog
pub mod Fleet
pub mod FleetAgent
pub mod Accounts
pub mod Licensing
pub mod TickHouse
pub mod Trading
