-- ===== src/Lib.antt =====
-- Verification of the backend of the ocean data portal (backend/app): datasets with their uploads,
-- ingestion, records and quality control; access requests and grants, extraction scopes,
-- extractions and downloads; and the accounts that they belong to.
--
-- How the program works. An admin creates a dataset (backend/app/services/admin_datasets_service.py)
-- and uploads files to it, which a worker parses and stores
-- (backend/app/worker/tasks/ingestion.py); their records lie in the database, in Parquet files or
-- in gridded files, and one filter reads them all (backend/app/services/catalog_service.py). A
-- user submits a request for a published dataset with search criteria; an admin approves or
-- rejects it (backend/app/services/requests_service.py). An approval gives
-- an access grant with a scope and an end. Under a grant the user asks for extractions: the
-- scope of each is checked against the grant, a row for it is written, and a worker
-- (backend/app/worker/tasks/extraction.py) filters the dataset's files by the scope
-- (backend/app/services/extractors/scope_filter.py) and stores the output, which the user
-- downloads (backend/app/routers/requests.py). Grants end by revocation, by archiving the
-- dataset (backend/app/services/admin_datasets_service.py) and by the nightly scan of accounts
-- that are to be deleted (backend/app/worker/tasks/notifications.py).
--
-- Files.
--   Prelude      names of the library, and Python's tests on lists, options and integers.
--   Table        database tables as association lists, the queries on them, and their laws.
--   Session      the SQLAlchemy session of a request as a monad: committed and pending writes,
--                HTTP errors and other exceptions (backend/app/core/database.py get_db).
--   Models       rows and enumerations (backend/app/models/user.py, catalog.py, requests.py,
--                uploads.py, audit.py, notifications.py, admin.py).
--   Database     the whole database as one record, and write_audit_log.
--   Scope        the criteria, their check against a grant (Validate), the row filter (Mask) and
--                what an accepted scope can reach (Fields, Soundness, Extent).
--   Requests     compute_expiry, create_request, approve_request, reject_request, extend_grant,
--                revoke_grant, archive_dataset, unarchive_dataset, set_publish_status,
--                process_pending_deletions.
--   Extractions  create_extraction, process_extraction, download_extraction.
--   Workflow     abstract transitions (Change), the ordinary calls of the running system (System),
--                these and the permanent deletion of datasets (Erasure), the paths of each
--                handler, and what follows for sequences of calls.
--   Accounts     passwords and tokens (Tokens: backend/app/core/security.py), login and its
--                lockout (Login), sessions and the bearer check (Sessions:
--                backend/app/services/auth_service.py, security_service.py,
--                backend/app/core/deps.py), permission checks (Permissions:
--                backend/app/core/permissions.py), role assignment, anonymisation and deletion
--                of roles (Roles: backend/app/services/admin_users_service.py,
--                admin_roles_service.py), and their theorems.
--   Uploads      how an upload begins (Start: backend/app/services/ingestion_service.py,
--                dataset_file_service.py), multipart uploads
--                (Handlers: backend/app/services/dataset_multipart_upload_service.py), and the
--                ingestion task with its checkpoints, failures and clean-up (Ingestion:
--                backend/app/worker/tasks/ingestion.py).
--   Datasets     codes, creation, editing and permanent deletion of datasets
--                (backend/app/services/admin_datasets_service.py).
--   Catalog      filters, counts and previews of records, over SQL rows (Filter:
--                backend/app/services/catalog_service.py), Parquet files (Tabular:
--                backend/app/services/tabular_query_service.py), gridded files (Gridded:
--                backend/app/services/gridded_query_service.py) and all stores together (Records).
--   Storage      object keys (Keys: backend/app/services/storage/keys.py) and the sweep for
--                orphans (Sweep: backend/app/worker/tasks/integrity.py).
--   Quality      the detectors and the scan (backend/app/services/admin_qc_service.py).
--   Parsers      which parser a file gets and what its first bytes must be (Sniff:
--                backend/app/services/parsers/registry.py), UTF-8 (Utf8), and the metadata of a
--                CSV (Csv: backend/app/services/parsers/csv_parser.py).
--   Writer       the records of a Parquet file into the database, in batches
--                (backend/app/worker/tasks/ingestion.py _write_dataset_records).
--   Registry     the registry of the variables of datasets (backend/app/worker/tasks/ingestion.py
--                _write_variable_registry).
--   Backups      the dumps of the database and the sweep of old ones
--                (backend/app/worker/tasks/backups.py).
--   Tests        a small database, concrete runs, and the witnesses.
--
-- How the model stands to the code. Keys (UUIDs) are numbers, and so are instants (seconds). A
-- new key is an argument of the handler that draws it; a key that is taken already breaks the
-- primary key, which is a crash. Each handler runs on one session, from the database to a
-- response and the next database; an exception drops what is not committed. Rows written and not
-- flushed are visible to the queries after them; no modelled query selects rows that an earlier
-- write of the same handler changes, unless the source flushes between them. The worker's run of
-- an extraction has two commits, and other calls may come between them. HTTP errors are status
-- codes; their texts, and the texts of audit entries and mails, are left out. The numbers of a
-- scope are whole multiples of a unit; NaN is left out, and so is the matching percentage that
-- create_request derives for display.
--
-- Passwords are their UTF-8 bytes. The coarse role of an account is kept apart from the roles
-- that it is assigned, as in the source.
--
-- Parameters: bcrypt, jose and the lower-casing of emails (Libraries), pandas (conversion and
-- comparison of cells), dateutil (Calendar), the reading and writing of files by the extractors
-- (Work), the ids of Celery tasks, what DuckDB reads of files, the grids that xarray opens and the
-- order of ORDER BY (Lake), how pandas reads a CSV (Pandas) and pyarrow a Parquet file
-- (ParquetFile), the numbers and days that a text reads as (Texts), the intersection of a point
-- with an envelope (Spatial), deviations from a mean (Statistics), what storage lists and holds
-- (Objects), and the texts of UUIDs (Uuids).
--
-- Texts that the code walks character by character (file names, keys, codes of datasets) are lists
-- of code points; `codes` takes a text apart.
--
-- All functions are structural. Fuel is used twice: the decimal digits of `n` are given `suc n`, and
-- the creation of a dataset has the five attempts of the source. The work of an ingestion is a list
-- of stages, each with what other sessions commit while it runs and whether a checkpoint follows it;
-- which writes of the task reach the database is an argument (Writes), since the task is written for
-- a database that fails. The revocation of the Celery task by cancel_upload, which may kill it, is
-- left out. Numbers in the registry of variables are whole millionths, as its columns keep them.
-- A request is without its supporting document, which the router attaches after the first commit.
--
-- Not modelled: search by text, the computations of visualisation and their jobs (SQL ranking and
-- array libraries), the semaphore before heavy queries (asyncio), the parsers of binary formats,
-- storage backends, content pages, mail, and the frontend.
pub mod Prelude
pub mod Table
pub mod Session
pub mod Scope
pub mod Storage
pub mod Datasets
pub mod Quality
pub mod Models
pub mod Database
pub mod Accounts
pub mod Uploads
pub mod Catalog
pub mod Requests
pub mod Extractions
pub mod Workflow
pub mod Tests
pub mod Parsers
pub mod Writer
pub mod Registry
pub mod Backups
