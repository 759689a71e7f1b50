-- ===== src/Lib.antt =====
-- An email marketing service: contacts on lists, a global suppression list, campaigns that are
-- materialized into a ledger with one row for each recipient, a paced send task for each row,
-- and a webhook that reconciles bounces and complaints with the ledger and the suppression list.
--
-- Parts, with the code that they model (paths from the root of the repository):
--   Base, Text, Dict     shared: lists, tables as lists of rows, Python's str and hashes
--   Models               app/models: enumerations, rows, and the database as a record of tables
--   Normalize            app/services/normalize.py
--   Suppression          app/services/suppression.py: is_suppressed_sync, suppress_sync
--   Webhook              app/integrations/postal/webhook.py: verify_webhook, the event and its
--                        tests; Parse is parse_event, over a JSON value of its own
--   Counters             app/services/counters.py: bump_campaign
--   Bounce               app/services/bounce.py: apply_event, and app/tasks/webhooks.py
--   RateLimit            app/services/rate_limit.py: acquire; DailyCap has the daily counters
--   PlannerConfig        app/services/planner_config.py
--   Frequency            app/services/frequency.py
--   Warming              app/services/warming.py; Summary is what the page shows of it
--   Merge                app/services/merge.py
--   CampaignLists        app/services/campaign_lists.py
--   Tokens               app/services/tokens.py
--   Sending              app/tasks/sending.py: Ledger, Materialize (materialize_campaign), and
--                        SendOne (send_one), with the message of app/integrations/postal/base.py
--   Campaigns            app/services/campaigns.py: the life of a campaign; Presend has the summary
--                        and the deletion
--   Scheduler            app/tasks/scheduler.py: dispatch_due_campaigns, finalize_and_repump
--   ConfigStore          app/services/config_store.py: the free-provider filter and its settings
--   Import               app/services/csv_import.py: import_into_list; Columns has the header
--   Lists                app/services/lists.py: lists, add_contact, remove_and_suppress,
--                        suppress_only
--   Planner              app/services/planner.py: placements, and in Recurring the recurring
--                        campaigns, in Grid the grid; Engine and Runs are
--                        app/services/planner_engine.py
--   Cascades             app/models: what the foreign keys do on a deletion
--   Templates            app/services/templates.py
--   Verify               app/services/verification/inhouse.py: verify_batch and its caches; Task is
--                        app/tasks/verification.py: verify_list
--   Postal               app/integrations/postal/client.py: what an answer counts as; mock.py
--   Api                  app/api/unsubscribe.py and webhooks.py; Keys is
--                        app/services/api_keys.py, and Status app/api/status.py
--   Web                  app/web: the handlers that change a campaign, the planner or a list
--   Accounts             app/services/auth.py
--   System               the parts together: every transaction as an operation, and the predicates
--                        that all of them keep; Steps has runs in which the tasks of all workers
--                        are interleaved, cut where they lock, call Postal and record its answer
--   Examples             runs on small inputs
--
-- How they interact. Import and Lists fill the contacts, Campaigns and Planner create campaigns
-- that are scheduled for a time. Scheduler puts a due campaign into the state `sending` and
-- starts Materialize, which reads the lists, the suppression list and the frequency log, and
-- enqueues a send task for each pending row. SendOne checks the row, its campaign and the
-- suppression list again, takes the tokens of RateLimit, asks the daily caps and Warming, builds
-- the message with Merge, and marks the row with what Postal answers. Bounce matches the later
-- events to the rows by the message token.
--
-- State is passed explicitly: a service is a function from a database, or from the world of a
-- task (database, Redis, queue, and what Postal has accepted), to the next one and its answer.
-- What other transactions do meanwhile is an argument: a function on the database in SendOne,
-- the store as another worker has left it in RateLimit, the winner of an insert race in
-- Suppression. System closes this: there the others do nothing but the operations of the program,
-- and a task that is cut into parts can be overtaken by others, lose its lock, or never go on, as
-- when its worker dies.
--
-- Bounds. The recursion is structural. `acquire` makes at most 25 attempts, as the source does,
-- and is refused after that. The fuel of `verify_batches` is the number of rows, since a batch
-- takes at least one. Time is whole seconds, in RateLimit whole microseconds; the floats there are
-- exact fractions of a token, 60000000 parts of which make one token.
--
-- Parameters are the code of other packages: email_validator, markupsafe.escape, the signed
-- serializer of itsdangerous, the HMAC of the webhook, SHA-256, the password hasher, the rows of
-- csv.reader, zoneinfo, the DNS resolver, and the text that Python gives a value that is no string.
-- The answers of Postal and of the clock are fields of the environment of a send.
--
-- Not modelled: the expiry of the keys in Redis other than the send lock; a timestamp that the
-- platform has no number for, at which OverflowError is raised; letters outside ASCII in
-- `str.lower`; the pages and the statistics that only display; the raw message and the HTTP
-- request of the client, which packages build; the summary of a verification; the forms of the
-- remaining pages, and the session of a login.
pub mod Base
pub mod Text
pub mod Normalize
pub mod Models
pub mod Suppression
pub mod Webhook
pub mod Counters
pub mod Bounce
pub mod Dict
pub mod RateLimit
pub mod PlannerConfig
pub mod Frequency
pub mod Warming
pub mod Merge
pub mod CampaignLists
pub mod Tokens
pub mod Sending
pub mod Campaigns
pub mod Scheduler
pub mod ConfigStore
pub mod Import
pub mod Lists
pub mod Planner
pub mod Cascades
pub mod Templates
pub mod Verify
pub mod Postal
pub mod Api
pub mod Web
pub mod Accounts
pub mod System
pub mod Examples
