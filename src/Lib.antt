-- ===== src/Lib.antt =====
-- FreeLunch, a gateway that sends each chat request to the best of the free language models it
-- knows: the parts of the program that decide, and what they guarantee.
--
-- The parts and how they interact. `src/proxy.py` asks `src/routing.py` for candidates, tries them in
-- turn and relays the answer. `src/routing.py` reads the `models` table and orders the models
-- that can serve a request. `src/health.py` marks the outcome of attempts and probes in that table,
-- through the writer of `src/db.py`. `src/security_throttle.py` counts failed credentials, and
-- `src/config.py` holds the settings. `src/proxy.py` asks the throttle before it looks at a token. `src/discover.py`
-- asks each provider of the registry (`src/providers/registry.py`) for its models, adds the scores that
-- `src/benchmarks.py` has put in the cache, and hands the rows to the writer; `src/ranking.py` then scores
-- the active rows. `src/tokens.py` estimates the tokens of a request for the routing. The adapter of
-- `src/providers/openai_compatible.py` sends the requests and cuts the streams into events; the one of
-- `src/providers/openrouter.py` keeps the free models of its list. `src/scheduler.py` runs discovery,
-- ranking and probes as jobs, and `src/main.py` says after each whether the gateway is ready.
--
-- The files:
--   Prelude, Prelude/*: names of the libraries, Boolean tests, lists, integers, sorting, membership.
--   Floats, Floats/Fixed: a float is a type with the operations that the code uses (`Floats`). The
--     theorems hold for every instance, or for those whose `<` is a weak order (`IsWeakOrder`).
--     Thousandths are the instance of the tests.
--   Dict: `dict` and `OrderedDict` as association lists. Json: values that `json.loads` returns.
--   Providers/Errors, Providers/Errors/*: the errors of `src/providers/base.py` and the categories of
--     `src/providers/openai_compatible.py`; `str.lower` is a parameter. Providers/Errors/Payload:
--     `provider_error_from_error_payload`.
--   Proxy/Parsing, Proxy/Parsing/*: `_read_chat_payload`, `_parse_requirements` and
--     `_parse_routing_preferences`. The bytes and headers of a request are arguments; `json.loads`,
--     `int` and `str.isdigit` are parameters.
--   Proxy/Attempts, Proxy/Failover, Proxy/Failover/*: `chat_completions` of `src/proxy.py` from the candidates on. What
--     the adapters answer is a parameter; marks and log rows are a list of effects.
--   Proxy/Events: `_parse_stream_event` and `_is_comment_event`.
--   Proxy/Relay, Proxy/Relay/*: `_relay_stream`. The times at which the client is gone are a
--     parameter, as are `json.loads` and the texts of exceptions.
--   Throttle, Throttle/*: `FailureThrottle`, one function per method, the clock as an argument in
--     nanoseconds, the keyed digest as a parameter.
--   Database/Models, Database/Writes: the `models` table as a list of rows, and the statements that
--     are queued for the writer as data with the function that runs them.
--   Database/Writer, Database/Writer/*: `DBWriter`, with an action for each step that other threads
--     may come between, and `Reached` for all interleavings.
--   Database/Activation, Database/Activation/*: `set_model_active`, `mark_models_not_seen`, and
--     `apply_provider_runtime_state` of `src/main.py`.
--   Database/Unique: the rows that the statements leave, seen by their ids.
--   Database/Overrides, Database/Overrides/*: `config_overrides`, written and read back; `json.dumps`
--     and `json.loads` are parameters.
--   Application, Application/*: `recompute_readiness` of `src/main.py`.
--   Scheduler, Scheduler/*: `run_discovery_pipeline` from its three jobs, and the tracking of jobs as a
--     list of starts and ends in any order.
--   Routing, Routing/*: `pick_candidates` and what it calls. The token estimate is a parameter.
--   Health/Marks, Health/Marks/*: `mark_failure` and `mark_success`.
--   Health/Probes, Health/Probes/*: `_select_bootstrap_candidates` and `_select_probe_candidates`.
--   Health/Batch, Health/Batch/*: `_run_probe_batch`, with an action for each stretch of a coroutine
--     between two points at which it may wait, and `BatchReached` for all orders. Health/Checks:
--     `run_health_checks` and `bootstrap_health_check`, given what the batch does.
--   Benchmarks/Names, Benchmarks/Names/*: `normalize_model_name` of `src/benchmarks.py`; `str.lower` is
--     a parameter.
--   Benchmarks/Scores, Benchmarks/Scores/*: the columns of an Open LLM row and `_update_score`.
--   Benchmarks/Paging, Benchmarks/Paging/*: the loop of `fetch_open_llm_scores`. The server is a
--     parameter, which may answer the same request differently each time.
--   Benchmarks/Cache, Benchmarks/Cache/*: `leaderboard_cache` of `src/db.py`, and
--     `refresh_leaderboard_cache` from the answers of the sources on.
--   Discovery, Discovery/*: `src/discover.py`. Its upsert is a statement of Database/Writes.
--   Providers/EventStream, Providers/EventStream/*: `event_stream` of
--     `src/providers/openai_compatible.py`, which cuts bytes into events.
--   Providers/Requests, Providers/Requests/*: `_request_with_retries` and the errors of a response. What
--     the network does for an attempt is a parameter.
--   Providers/Values: how a value of a row is read. Providers/Catalog, Providers/Catalog/*: how the rows
--     of a list of models are read. Providers/Adapter,
--     Providers/Adapter/*: `discover_models`, `chat_completions` and `probe`, on top of the requests.
--   Providers/OpenRouter, Providers/OpenRouter/*: `discover_models` of `src/providers/openrouter.py`,
--     from the answer of the server on.
--   Tokens/Estimate, Tokens/Estimate/*: `estimate_required_tokens` and `request_contains_vision` of
--     `src/tokens.py`; the counts of a text are parameters.
--   Tokens/Repos, Tokens/Repos/*: the names under which a tokenizer is looked for on the Hugging Face Hub,
--     from the hint of a model; `str.lower` and its like are parameters.
--   Tokens/Preload, Tokens/Preload/*: the cache of tokenizers and its futures, with an action for each
--     stretch under the lock.
--   Ranking, Ranking/*: `src/ranking.py`. Its update is a statement of Database/Writes; rounding and the
--     weights are parameters.
--   Providers/ApiBase, Providers/Registry, Providers/Registry/*: `validate_provider_api_base` and
--     `ProviderRegistry` of `src/providers/registry.py`. Parsing of URLs and the factories are parameters.
--   Proxy/Auth, Proxy/Auth/*: `_check_gateway_auth`, and `_resolve_gateway_auth_state` of `src/main.py`.
--     The check of a hash is a parameter.
--   Settings, Settings/*: the fields of `Settings` that the modelled parts read, and `apply_overrides`
--     without the ranking weights. Settings/Providers, Settings/Providers/*: how `from_env` reads the
--     switches of the providers, the questions that are asked of them, and `apply_managed_secrets`.
--
-- Time is in seconds since an epoch, where the code compares ISO texts of one format; the throttle
-- counts nanoseconds, and requests and streams count milliseconds. Strings are compared as they are.
--
-- Two loops run on fuel: the paging, where the number of rows and the page size are enough, and the
-- search for newlines, where the length of the buffer is. Each other recursion is on a list, a stream, a
-- string or a number.
--
-- Not modelled: HTML and scripts of the admin pages, installation and deployment scripts, the vault of
-- secrets (`src/secret_store.py`, cryptography), log files (`src/runtime_logging.py`), HTTP clients,
-- SQLite itself and tokenizers (their counts are parameters).
pub mod Prelude
pub mod Floats
pub mod Dict
pub mod Json
pub mod Throttle
pub mod Database
pub mod Routing
pub mod Settings
pub mod Health
pub mod Providers
pub mod Proxy
pub mod Benchmarks
pub mod Discovery
pub mod Tokens
pub mod Ranking
pub mod Application
pub mod Scheduler
