-- ===== src/Lib.antt =====
-- Vista Authen: access control of a residential building by signed QR codes. A server (FastAPI over
-- SQLAlchemy) keeps units, residents, guards ("checkers"), administrators, activation tokens and an
-- audit log. An administrator provisions a resident, who gets an activation token; the resident's
-- device sends the token with a public key, and is bound; at the door a checker scans a payload that
-- the device has signed, and the server answers whether it lets the resident in.
--
-- Which file models what:
--   Models, Tables, Rows       app/models/models.py: the rows, and the constraints under which the
--                              database takes, changes and deletes them
--   Session, Routes/Http       app/core/database.py: an operation is a function from a world to a result
--                              and a world; get_db commits when the endpoint returns and rolls back when
--                              it raises. Session/Wp has a proof rule for each way a block begins;
--                              Session/Reads and Session/Quiet have the rules by which a block is seen
--                              to read only, and to commit nothing, and Session/Accounting those by which
--                              it is seen to log; Services/Quiet and Routes/Quiet apply them
--   Config, Security, Deps     app/core/config.py, security.py, deps.py
--   Limiter                    app/core/limiter.py, and the 429 of app/main.py
--   Services/Residents         app/services/resident_service.py: provision (Provision), register_device
--                              (Activation), revoke, update_contact and list_by_unit (Management)
--   Services/Units             app/services/unit_service.py
--   Services/Accounts          app/services/checker_service.py, admin_service.py
--   Services/Access, Crypto    app/services/access_service.py, crypto_service.py
--   Services/Audit, Logging    app/services/audit_service.py, and the _log_action methods
--   Services/Cleanup           app/services/cleanup_service.py
--   Routes                     app/routes, with the body constraints of app/schemas/schemas.py
--                              (Bodies) and its response models (beside their endpoints). A
--                              Request is one call of the API, and `handle` runs it in its session and
--                              gives the status code; `serve` runs requests and rounds of
--                              run_periodic_cleanup (app/main.py) one after another
--   Server                     app/main.py: the table of routes with the decorators of app/routes
--                              (Routing, Dispatch, Addresses), run_periodic_cleanup as a loop over the
--                              ways and the stages in which its rounds end, and lifespan (Task,
--                              Shutdown), for a CancelledError that reaches the loop
--   Python                     what the services use of Python: str.split and strip, int(), uuid.UUID,
--                              base64.b64decode
--   Lifecycle                  the specification: Step, what may become of the tables, each change with
--                              its guard. Its children go through the services and the endpoints, and
--                              Invariant, Soundness, Distinct, Uniqueness and Finality have the invariants
--                              of the steps
--   Scans, Residency, Permissions, Upkeep
--                              what single operations promise, and who may call them
--   Seed                       seed.py
--   Examples                   one small building to which the theorems are applied
--
-- A method of a service is a function of the same name. A long method is cut at its early returns:
-- `verify` is `verify`, `check_fields`, `check_id`, `check_timestamp`, `check_resident`,
-- `check_signature`, `decide` and `admit`, in the order of the source. A query by primary key is `get`,
-- a `select … where` is `select`, a flush that the database refuses raises `integrity_error`.
--
-- The libraries are the fields of `Externals`, an argument of what uses them: passlib's hash and
-- verify, python-jose's encode and decode, the PEM keys and signatures of cryptography, the
-- database's order of texts, and what SQLAlchemy answers where a row is read after its update.
-- FastAPI's router is any function that follows the table of routes (Server/Routing). The readings
-- of the clock, of uuid4 and of the salts are streams in the world, about which nothing is assumed.
-- The answers of slowapi's limiter to the calls that are counted are a stream of functions of the
-- limit and the key, and the orders in which the database lists audit entries of one timestamp are
-- a stream of rankings. Nothing here runs on fuel: every function is structural.
--
-- Bounds: a datetime is a number of microseconds after the epoch; a UUID is a number; a unit's
-- capacity and the page numbers are natural numbers, as the request bodies demand. Texts are UTF-8.
--
-- Not modelled: requests whose operations interleave in general (they run one after another here;
-- Residency/Racing takes two requests for the last place of a unit, and Residency/Contending two
-- devices with one token); the counters of the rate limiter and CORS in app/main.py, which belong
-- to libraries; the redirection of paths with a trailing slash, which is FastAPI's; the lengths of
-- text columns and the range of integer columns in the database; the JSON form of answers and the
-- texts of error messages; the constant answer of the health check; the web clients; alembic, which
-- sets up a tool; and hello.py.
pub mod Prelude
pub mod Models
pub mod Python
pub mod Session
pub mod Rows
pub mod Tables
pub mod Config
pub mod Externals
pub mod Security
pub mod Deps
pub mod Limiter
pub mod Routes
pub mod Seed
pub mod Server
pub mod Services
pub mod Lifecycle
pub mod Scans
pub mod Residency
pub mod Upkeep
pub mod Permissions
pub mod Examples
