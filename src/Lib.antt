-- ===== src/Lib.antt =====
-- zcode2api: a gateway that serves three chat protocols from a pool of upstream accounts, each of which
-- connects through an exit of its own region.
--
-- The gateway takes an account for a request from the store's rotation, or the one that its session is
-- bound to, and tries it. The attempt asks the client pool for a client of the account's exit, sends the request,
-- classifies the answer, writes the account's health back to the store and settles the request with the
-- exit's circuit breaker. New accounts get their region when they are added to the store.
--
-- The files and the code that they model:
--   Prelude        shared names: Boolean tests, lists, text, dictionaries, signed numbers, JSON values with
--                  Python's `int` (Number) and `json.dumps` (Dumps) on them.
--   Account        app/models.py: `Account` (its record in Data), its status, selection, quota and billing
--                  tests, the ticks of its recent results. Health proves that the tests agree.
--   Region         app/region_assign.py with the tiers of app/constants.py: `pick_region` over exact
--                  shares in place of floats. Assign proves what it picks.
--   Store          app/store.py: the pools, cursors and table rows of `Store`, and `Account.identity`.
--                  Ops has add, remove, update, enable, export and save; Select has `select` and
--                  `selection_snapshot`; Rows has `_load`. Dedup, Edits, Select/Choice,
--                  Select/Rotation, Rows and Rows/Restart hold the proofs.
--   Egress         app/egress.py: `managed_port` and `slot_identity`. Policy is app/egress_policy.py.
--   ClientPool     app/client_pool.py: `AccountClientPool`. Circuit is the circuit breaker of one exit,
--                  Registry `load_registry`, Admission the eligibility of exits with `begin_request` and
--                  `end_request`, Route `_bound_port`, `get_healthy_regions` and `resolve_proxy`, Clients
--                  the cached clients and the operations that hold them.
--   Auth           app/auth_admin.py: the keys of the admin pages and the gateway, the lock on failures.
--   Chat           app/openai_compat.py: a request of the chat protocol as a body of the messages protocol
--                  (Effort, Turns, Request), a whole answer (Answer) and a stream (Stream) back.
--   Responses      app/responses_compat.py: the same for the responses protocol: Items, Messages and
--                  Request; Answer; Stream with Deltas and Feed is the converter of a stream. Stream/Phase
--                  is the protocol that it keeps to, stated apart from it, and Stream/Serve the loop of
--                  app/routes/gateway.py that feeds it.
--   Body           app/body_transform.py: the system blocks, the cache mark and the user's identifier that
--                  are written into a body before it goes upstream.
--   RequestLog     app/reqlog.py: the ring of the latest requests and the requests in flight.
--   Gateway        app/routes/gateway.py: Classify is the classification of upstream errors, Attempt is
--                  `_try_account_admitted`: its variables, Attempt/Branches its branches, Attempt/Loop the loop.
--                  Slots counts the requests in flight, Affinity keeps sessions on their accounts.
--                  ChatStream is the loop that feeds the converter of the chat protocol, Upstream the
--                  endings of `_Upstream`, the stream that an attempt hands on.
--
-- State is passed explicitly: a method that holds a lock is a function from a state to a state, and what
-- it draws (identifiers, the clock) or reads (files, the upstream's answers) is an argument. A method
-- that raises returns an outcome or `none`. Times are whole seconds. `lower` and `strip` treat ASCII.
--
-- Fuel: `attempt` takes one unit to each pass of its loop. `budget` counts the passes that are left, so
-- more fuel than twice the retries of a 429, those of a server error and of a captcha, and three more is
-- enough.
--
-- Parameters: `payload_of` (the decoding of a token's payload), `loads` (json.loads), `url_of` (urlsplit),
-- `is_loopback` (ipaddress), `hash_of` (the number of an MD5 digest), `to_float` (the text of Python's
-- `float`), `uuid5`, `fresh` (identifiers that are drawn), `official` (the blocks of a data file). No
-- theorem assumes anything of them, but that the first official block has a text.
--
-- A conversion that raises an error which it does not catch gives `none`, or `raises` in the converter of
-- the responses protocol, whose state outlives the error. A JSON object is the list of its fields, a float
-- the text that Python prints for it; the data column of a
-- table row holds the account that its JSON reads back as; the text that `str` gives for a list or an object is not spelt out.
--
-- Not modelled: `_dispatch`, the loop over the accounts, and the key of a session; the quota
-- and claim jobs, the pool of captcha tokens and the channels; the fingerprint of an account and
-- the settings table of the store, the cancellation of a request, which code the captcha service or the
-- browser runs, and everything that only reads or writes the network, a file or a page. Texts for people
-- are kept without the values put into them. The files that a call of the client pool reads do not change
-- within the call.
pub mod Account
pub mod Auth
pub mod Body
pub mod Chat
pub mod ClientPool
pub mod Egress
pub mod Gateway
pub mod Prelude
pub mod Region
pub mod RequestLog
pub mod Responses
pub mod Store
