-- ===== src/Lib.antt =====
-- LegalLens: a contract review service whose work is spread over workers by a consistent hash ring.
--
-- The program's parts, from src/legallens/ of the repository, and the modules that model them:
--
-- * workers/hash_ring.py, `ConsistentHashRing`: Ring. The state is the record `Ring` (virtual_nodes,
--   ring, sorted_hashes), the methods are the functions of the same names, and `_hash` is
--   `hash_key`. `hashlib.md5` is a parameter; the encoding of its argument and the reading of its
--   digest are in Python/Encoding, and `bisect_right` is in Python/Bisect.
-- * coordination/worker_registry.py, `WorkerRegistry`: Registry. Its methods send commands to Redis,
--   whose state they take and return; `refresh_ring` rebuilds the ring by `replace_workers`.
-- * orchestration/dispatcher.py and workers/task_queue.py, `TaskDispatcher` and `WorkerTaskQueue`:
--   Dispatcher. A task goes to the queue of the worker that the ring names, and is popped there.
-- * workers/worker.py, `Worker`: Worker. `run` is a sequence of turns, a heartbeat or a round of the
--   loop, at the end of which the stop event is set; what becomes of the tasks is said in Worker/Served
--   without the code that handles them. `__init__` is `new_worker` in Worker/Identity.
-- * agents/loop.py, `ContractReviewAgent`, and `dispatch_tool` of retrieval/tools.py: Agent. A run is
--   what it yields, what it sends to the model, and how it ends.
-- * Assistant joins the agent with the tools of the program, and with `_call_cohere` and its retries
--   (Agent/Retries).
-- * scripts/download_cuad.py, `download`: Download.
-- * api/main.py and the request models of models/domain.py: Api.
-- * orchestration/heartbeat.py, `HeartbeatMonitor`: Monitor. Its scans rebuild the registry's ring.
-- * ingestion/embedder.py, `CohereEmbedder.embed`: Embedder. The loop is `embed_rest`. `LocalEmbedder` is
--   in Embedder/Local.
-- * ingestion/pinecone_writer.py, `LocalNumpyIndex`: VectorStore. The class is the record of that name,
--   with its files beside it; `query` is in VectorStore/Query, and the protocol is in VectorStore/Interface.
--   `PineconeIndex` is in VectorStore/Pinecone.
-- * db.py and the SQL of the program: Database. A statement is a value of `Statement`, and `apply` and
--   `select` say what it does to the two tables.
-- * scripts/ingest_worker.py of the repository's root, `handle_ingest_contract`: Ingest. What one call of
--   it meets is an `Attempt`.
-- * orchestration/pub_sub.py, `publish_event` and `subscribe`: PubSub. What arrives at a subscriber is
--   a list of messages; Redis may lose some of what is published.
-- * scripts/ingest.py, `main`: Driver. It dispatches a task for each contract of the parser.
-- * scripts/ingest_worker.py, `main`: Ingest/Process. Pipeline runs it behind the driver, from the
--   entries of the file to the rows and the vectors.
-- * retrieval/tools.py, the three tools: Tools. The definitions of prompts/tools.py, and how arguments
--   are bound to a tool's function, are in Tools/Schema.
-- * `make_embedder`, `make_vector_store`, and the singletons of scripts/ingest_worker.py: Backends. A
--   process refers to an object by its number among those that it has constructed.
-- * coordination/sentinel_client.py, `SentinelClient`: Sentinel. `int` is in Python/Integers.
-- * ingestion/parser.py, `parse_cuad`: Parser. The function is `parse_entries`, from the decoded JSON on;
--   `_CATEGORY_RE` is `search_category`, and the texts' methods are in Python/Strings.
--
-- Python: a text is the list of its code points (Prelude/Texts), a dict is an association list in
-- insertion order (Prelude/Dict), `sorted` is a stable insertion sort (Prelude/Sorting), and a call
-- that may raise returns an `Outcome` (Prelude/Raising). Methods that change a state take it and
-- return it, also where they raise.
--
-- What is not part of the program is a parameter. Redis is the interface `Redis`, with the documented
-- behaviour of the commands that are sent; Redis/Memory meets it. The master and the replica are one
-- state where a theorem speaks of both, so replication lag and failover are left out. The JSON codec
-- of pydantic is `Codec`, which reads back what it wrote. The model and the tools are fields of
-- `Env`; tenacity is the interface `Tenacity`, and the client of Pinecone is `PineconeClient`. numpy
-- is `Numpy`, where a vector of the index's dimension fits, and the JSON of the manifest is `Json`.
-- PostgreSQL is two tables by their primary keys, in which a
-- statement acts as its SQL says, and a `Server` that may refuse any statement or commit; each session
-- is alone, so the isolation of concurrent transactions is left out. MD5 and SHA-1 are any functions;
-- where a theorem needs that hashes of different workers differ, it says so.
--
-- Bounds and fuel: the binary search of `bisect_right` takes the length of the list as fuel, and the
-- interval shrinks in every round; `decimal` takes the number plus one. The agent's loop counts down
-- from `MAX_AGENT_ITERATIONS`. The worker's loop, which runs until it is told to stop, recurs on the
-- list of its turns. The embedder's loop takes the number of the texts, and sends at least one in a
-- round.
--
-- Not modelled: logging, timestamps of events, connection handling, the other settings, the system prompt,
-- command lines and progress bars; an exception of the monitor's callback; commands of Redis that fail,
-- and the unsubscription at the end of a subscription.
pub mod Prelude
pub mod Python
pub mod Ring
pub mod Redis
pub mod Backends
pub mod Assistant
pub mod Download
pub mod Registry
pub mod Dispatcher
pub mod Worker
pub mod Agent
pub mod Api
pub mod Parser
pub mod Monitor
pub mod Embedder
pub mod VectorStore
pub mod Database
pub mod Ingest
pub mod Tools
pub mod Driver
pub mod Pipeline
pub mod PubSub
pub mod Sentinel
