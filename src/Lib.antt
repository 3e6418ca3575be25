-- ===== src/Lib.antt =====
-- MoneyFlow (GexpenseTracker): an expense tracker that reads a Gmail inbox, classifies what it
-- finds, removes duplicates and shows budgets and goals.
--
-- Parts:
--   Prelude     shared names; Python's dict, set and sorted, integers, texts.
--   Workers     app/workers/queue.py. `Workers/Task` has tasks and the key of a request;
--               `Workers/Memory` has `class TaskQueue`: `enqueue`, `prune_idempotency` and
--               `cleanup_idempotency` carry the method's names. `Workers/Memory/Pool` has the
--               workers: each event is what runs between two awaits, a list of events is an
--               interleaving. `Workers/Redis` has `class RedisTaskQueue`, on the keys of Redis.
--   Limits      the limiters: `Limits/Groq` for app/classifier/groq_rate_limiter.py,
--               `Limits/Requests` for the in-memory class of app/rate_limiter.py, `Limits/Scans`
--               for `_DedupRateLimiter` of app/sync/__init__.py.
--   Dedup       app/dedup/service.py: `Dedup/Merchant` and `Dedup/Score` have the pure scorer,
--               `Dedup/Rules` the learned rules on pairs of domains, `Dedup/Dates` the reading
--               of dates, `Dedup/Primary` the choice of the row to keep, `Dedup/Batch` the loops of
--               `batch_detect_duplicates`. The rows come from app/models.
--   Sync        app/sync/progress.py: `Sync/Progress` has the dicts that the module and its queue
--               share, `Sync/Writer` the background writer and its interleavings with the calls.
--               `Sync/Scans` has `adaptive_dedup_scan` of app/sync/__init__.py, which asks the
--               limiter of `Limits/Scans` for every user.
--   Api         app/api: `Api/Budgets` for budgets.py, `Api/Debts` for debt.py, `Api/Goals` for
--               goals.py, over tables that are lists of rows with an owner; `Api/Amounts` for the
--               floats of their requests.
--   Llm         app/classifier/llm: `Llm/Providers` for providers.py; of client.py, `Llm/Spend` has
--               `LLMSpendTracker`, `Llm/Sanitize` `_sanitize`, and `Llm/Calls` the calls: it
--               asks the ranked providers in turn, each through `_call_with_retry`, and pays each
--               answer into the tracker.
--   Classifier  app/classifier: `Classifier/Rules` for rules.py, `Classifier/PreFilter` for
--               pre_filter.py, `Classifier/Merchants` for merchant_store.py, `Classifier/Cleaning` for
--               the cleaning of names in merchant.py.
--   Services    app/services: `Services/Partitions` for partition_manager.py.
--
-- How the code is read: an awaited call is a border between two steps, and what stands between two
-- awaits, or under a lock, is one function from state to state. Ids (uuids, user ids) are only
-- compared, so they are numbers or texts. Instants are clock readings in microseconds, and seconds
-- in `Llm`. Writing to a log is left out. The loop of `GroqRateLimiter.acquire` takes fuel, one
-- unit for a round; from the last time on that its wall clock is set back, one round for each
-- second left of the timeout and one more are enough, since a round that does not end sleeps for a
-- second or to the end of the timeout. The loop of `_sanitize` takes the length of the text as
-- fuel for each pattern, which is enough where `str.lower` works on each character alone: the text
-- behind the first place of the pattern gets shorter in every round. The loop of `_regex_clean`
-- takes one more than the length of the text, which every round shortens. Searches of regular
-- expressions, requests to providers and their parsed answers are parameters. `json.dumps` with
-- SHA-256 is the parameter `digest`; `str.lower`, with its Unicode tables, is the parameter
-- `lower`; `datetime.date` is the parameter `make_date`. What a select returns is an argument, or
-- the rows of the table that its conditions keep. An amount in a table is in whole hundredths, as
-- the columns store it; an amount of a request, and the arithmetic on amounts that is done in
-- floats, is a parameter, `Api/Amounts`, which leaves out NaN. A quotient is kept unrounded,
-- except where it is of such floats.
--
-- Not modelled: HTTP routing, the database itself, the frontend, the prompts and the Gmail client, the
-- loop of a sync, and the routers and services that are not named above.
pub mod Prelude
pub mod Workers
pub mod Limits
pub mod Dedup
pub mod Sync
pub mod Api
pub mod Classifier
pub mod Llm
pub mod Services
