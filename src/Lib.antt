-- ===== src/Lib.antt =====
-- The Pond: a verification library for the platform's Python code.
--
-- The program is a Flask application (pond-sec/app) on a SQL database (db), with an intake pipeline
-- for uploaded challenges (challenge_ingestion) and a hypervisor layer (provisioner.py). Tables are
-- modelled as lists of their rows in the order of their keys, times as counts of microseconds, and
-- text as lists of character codes. The clock, the random generator, the password hasher and the
-- digest of a flag are arguments. An exception is the value `none`. Of a message to the user the
-- category is kept; the pages that show and remove it are not modelled.
--
-- Throttle: pond-sec/app/throttle.py and db/throttle_models.py, the sliding-window rate limits.
-- Roles: pond-sec/app/roles.py, the permission matrix, seniority and the guard of the views.
-- Accounts: pond-sec/app/identity.py and db/user_models.py, the accounts and the rows that the
--   views read.
-- Security: pond-sec/app/security.py, passwords, the lockout after failed sign-ins, and temporary
--   passwords. werkzeug's hasher is a parameter, with its documented round trip as a hypothesis where
--   a theorem needs it.
-- Audit: the `record` of pond-sec/app/audit.py.
-- Admin: pond-sec/app/admin.py, the routes that change accounts, behind their guards, and the
--   `set-role` command. Pages that only read are not modelled.
-- Scoring: pond-sec/app/scoring.py, the grading of a flag with the award ledger, the overall
--   leaderboard, that of a category, and the rank that a user's page shows. Readings and writes of
--   a submission are separate steps, so that calls can interleave.
-- Auth: pond-sec/app/auth.py, sign-in with its limits and lockout, registration, the change of one's
--   own password, and the hooks in front of each view, with session_is_idle of
--   pond-sec/app/__init__.py, and the tokens of pond-sec/app/csrf.py. Whether flask's
--   redirect takes the path of a query is a parameter.
-- Ingestion and Reports: the tables of the intake (db/submission_*_models.py and
--   db/notification_models.py) and the reports of challenge_ingestion/validation.py.
-- Worker: challenge_ingestion/worker.py, the transactions claim, renew and finish. Jobs: runs of them
--   by any number of workers. A worker's random token and its readings of the clock are arguments.
-- Provisioner: provisioner.py, with vm_instances of db/runtime_models.py. A hypervisor is a record of
--   its answers, and of the calls that raise, after the calls that were made. Allocation is about
--   the ids of machines, Networks about the networks of sessions and the cards in them, Machines
--   about the calls that are made and the rows that are left.
-- Proxmox: pond-sec/app/proxmox.py, the settings, the allowlist of the token, and the checks in front
--   of each operation of the provisioner. Trust is about them, the outbound rules of a workstation
--   and the requests to the Docker service.
-- Sessions: pond-sec/app/themes.py, launch, close, flag and the reaper over challenge_instances of
--   db/runtime_models.py, with close_session of pond-sec/app/admin.py, challenge_progress of
--   pond-sec/app/scoring.py (Scoring/Progress) and pond-sec/app/container_lab.py, whose adapter is a
--   parameter. Which exceptions of the adapter are a ProxmoxError is a parameter too, since the
--   model of provisioner.py has one value for all. Attempts: sequences of these requests, one after
--   the other, seen as who holds which attempt in which status.
-- Intake: challenge_ingestion/intake.py with challenge_ingestion/requirements.py. Each call is one
--   step, as the lock of the storage makes it; jsonschema and the bytes that the storage writes are
--   parameters. Quarantine: sequences of these calls.
-- Notices: challenge_ingestion/notifications.py over notification_outbox of db/notification_models.py,
--   the delivery of a batch and the inbox of a reader.
-- Review: challenge_ingestion/review.py. Digest: content_digest of
--   challenge_ingestion/validation.py. The json and hashlib libraries are a record of their answers.
-- Strings and Prelude: Python's strip and lower on text, lists as query results, tests and times.
-- Examples: concrete tables on which the theorems are applied.
--
-- The loop of claim has fuel for one turn more than there are eligible jobs, which a result below
-- shows to be enough; the digits of a number have fuel for the number plus one; every
-- other loop runs over a list or a range. Not modelled are the templates, the vendored noVNC client,
-- the Ansible playbooks, network and file input and output, the pages that only read, the console
-- relay, the publication of challenges, the checks of validate_submission, the files of storage.py, and
-- the scripts that fill the database.
pub mod Prelude
pub mod Strings
pub mod Roles
pub mod Accounts
pub mod Security
pub mod Audit
pub mod Admin
pub mod Auth
pub mod Scoring
pub mod Throttle
pub mod Examples
pub mod Ingestion
pub mod Reports
pub mod Worker
pub mod Jobs
pub mod Provisioner
pub mod Allocation
pub mod Networks
pub mod Machines
pub mod Review
pub mod Digest
pub mod Proxmox
pub mod Sessions
pub mod Attempts
pub mod Trust
pub mod Notices
pub mod Intake
pub mod Quarantine
