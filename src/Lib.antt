-- ===== src/Lib.antt =====
-- This library models the CTFd plugin that starts one Docker container per team or user for a
-- challenge (runtime_policy.py, models.py, helpers.py, container_manager.py, user_routes.py,
-- admin_routes.py and __init__.py of this repository), and proves what makes its decisions safe.
--
-- The parts and how they interact. The process reads its identity from the environment
-- (`RuntimeIdentity.from_environment`) and its settings from a table seeded with defaults; from
-- both it builds the policy: which Docker worker, daemon, network and image it accepts, and the
-- limits of every container. A request of an account passes the rate limit of user_routes.py and
-- goes through helpers.py, which holds the account's lock, counts its active containers and calls
-- the manager (container_manager.py); the manager asks the Docker daemon and records the container
-- and its flag in the database. A submitted flag is judged against these rows by the challenge
-- class of __init__.py, which also checks what an admin stores in a challenge; a solve, a stop or
-- the expiry job tears the container down again. An admin changes the settings through
-- admin_routes.py, which stores only what the manager finds valid.
--
-- Files:
--   Policy/Identity    `RuntimeIdentity`: from_environment, labels, owns_labels
--   Policy/Daemon, Policy/Network, Policy/Image, Policy/Endpoint, Policy/RateKey, Policy/Hardening
--                      the functions of runtime_policy.py of those names
--   Policy/Forms       its patterns, Policy/Errors its exceptions
--   Models             the rows of models.py, and `db.session` as a view and what is committed
--   Models/Accounts    whose row it is, in words of the columns
--   Flags              get_container_flag and log_reused_flag_submission of helpers.py
--   Records            cleanup_container_records and the settings of helpers.py
--   Requests           the handlers create_container, renew_container, view_container_info and
--                      kill_container of helpers.py, over the interface `Runtime` of the manager
--   RateLimit          increment_rate_limit and account_ratelimit of user_routes.py
--   RateLimit/Window   a rate limit as it is meant, one window for a key
--   UserRoutes         the routes of user_routes.py
--   ChallengeType      _normalize_challenge_payload of __init__.py, and in ChallengeType/Store and
--                      ChallengeType/Attempt the methods of ContainerChallenge
--   Admin              normalize_settings_payload of admin_routes.py, and in Admin/Routes the routes
--                      that store settings and kill containers
--   Manager            the state of container_manager.py, the Docker client as a record of calls over
--                      an abstract daemon, and the blocks that may raise
--   Manager/Connection initialize_connection, run_command, is_connected
--   Manager/Starting   __init__, validate_settings, runtime_fingerprint
--   Manager/Containers kill_container, is_container_running, get_container_port, the expiry job
--   Manager/Listing    get_images and get_running_container_ids
--   Manager/Startup    the image contract, the wait for health, the random flags
--   Manager/Options    flag, volumes and capabilities of a launch
--   Manager/Launching  create_container
--   Migrations         the upgrades and downgrades of migrations/
--   Text, Regex, Result, Prelude
--                      the texts, regular expressions and exceptions of Python that the code uses
--
-- How the code corresponds. A function that raises returns a `Result`; a method of the manager is
-- an `Action`, a function of the world (manager, session, daemon) to a result and the next world,
-- so that what was changed before an exception stays changed. An exception is a constructor instead
-- of a message. A helper named in the map of the development stands for a part of a function, where
-- the source nests tests or handlers. A function with the suffix `_steps` is a method without its
-- `run_command` wrapper. `World.killed` is not in the source: it lists what the daemon was told to
-- kill.
--
-- Parameters. Code that is not in the repository is an argument: the Docker client and the clock
-- (`Docker`), SHA-256, `json.loads` (`Json`), float arithmetic (`Floats`), the IPv6 literals of
-- `ipaddress`, the ValueErrors of `urlsplit`, the stores of the rate counters (`Backend`), the id
-- that the database compares a text with, Alembic's operations (`Op`), and the columns of CTFd's
-- own table of challenges. The hypotheses on them are `Ticks` (the clock does not run backwards and
-- a sleep lasts as long as it is asked to), `IsRedis` (INCR and EXPIRE), `IsCache` (get and set
-- with a timeout) and `IsOp` (Alembic adds a name that is not there).
--
-- Bounds. The only loop with fuel is the wait for a healthy container: four looks for each second
-- of the start timeout, since each turn sleeps a quarter of a second, and one more; when the fuel
-- is used up the model raises `cut_off`, which is no exception of the program. Numbers of rows,
-- ports and times are natural numbers; a setting is read as an integer of either sign. Times of the
-- daemon's clock are milliseconds.
--
-- Not modelled. `lower` and `upper` change ASCII letters, and the few others whose image is ASCII;
-- `int` reads ASCII digits, signs, underscores and white space. The scheduler is one truth value.
-- The replies of the database's advisory locks are given, and other processes do not change the
-- rows during a step. Of the database's constraints only the unique columns of the info rows are
-- checked, against the rows that the session sees. CTFd's decorators on the routes,
-- `sync_dynamic_awards`, the start of the plugin, the pages and lists of the admin, the templates
-- and the scripts are not modelled. Of a table the migrations see the names of columns, indexes and
-- constraints, with what they stand for. In a payload, an infinite float is left out, and of two
-- errors of volumes and capabilities the one of the volumes is reported.
pub mod Prelude
pub mod Text
pub mod Regex
pub mod Result
pub mod Policy
pub mod Models
pub mod Flags
pub mod Records
pub mod Manager
pub mod Requests
pub mod RateLimit
pub mod UserRoutes
pub mod ChallengeType
pub mod Admin
pub mod Migrations
