-- ===== src/Lib.antt =====
-- The durable core of the learning question-and-answer assistant.
--
-- The service answers questions by runs that outlive requests and workers. A run is a row of
-- chat_runs with the rows that name it: an event journal with an outbox, a checkpoint, the
-- receipts of its checkpointed calls, its artifacts and its assistant message. API requests
-- create, read, cancel and resume runs; workers claim them under a lease and a generation, save
-- checkpoints, and make tool and model calls through receipts, so that a lost worker's run goes
-- on elsewhere. All of them act on the rows through transactions, and nothing else is shared.
--
-- Base: numbers, lists, tables of rows, numbered rows and Python text (code points, strip, the key
--   pattern).
-- Transaction: app/manager/transactions.py and app/core/errors.py. A body works on `work`,
--   `commit` copies it to `saved`, and a scope that is left keeps `saved` only. Each reading of
--   the database clock is `clock n`, so that time may pass between two of them. Rules, Refusal
--   and Outcome are the proof rules for bodies.
-- Run/State: app/entity/do/models.py. Run/Journal, Owner, Answer, Checkpoint, Resume, Operation
--   and Claim: RunStore of app/service/runs.py, with the conditions of app/dao/queries/runs.py;
--   `x_body` is the body of the method `x`, `save_event` is `_event`, and `complete` and
--   `save_checkpoint` keep their names. Run/Invoke: RunCheckpoint.check and invoke of
--   app/manager/run_checkpoint.py. Run/Calls: any call, and any history of calls by anyone.
-- Run/Store: RunStore.create over the list of all runs, and any history of creations and calls.
-- Run/Queue: claim_next and settle_cancellations over the list of all runs. Run/Dispatch:
--   dispatch_outbox over the rows of the outbox of all runs, its part in one run, and any history
--   of calls on a run and of dispatches.
-- Run/Stable and below: what every call does to the journal, the checkpoint, the operations and
--   the generation of a run. The other modules of Run prove the properties; Run/Tests holds
--   sample runs.
-- Ingestion/State, Queue, Worker and Finish: IngestionQueue of app/service/ingestion_jobs.py, with
--   app/dao/queries/ingestion_jobs.py; Ingestion/Metadata: app/entity/ingestion.py. A queue is the
--   jobs, the tasks that mirror them and the documents. Ingestion/Calls: any call, and any history.
-- Evidence/State, Registry, Knowledge, Citations and Snapshot: EvidenceRegistry of
--   app/manager/evidence.py; Evidence/Contracts: Chunk, ParentContext and HierarchyContext of
--   app/entity/bo/contracts.py. An operation takes a registry and returns its report and the next
--   registry. Evidence/Operations: any operation, and any history.
-- Auth/State, Limit, Sessions, Login and Origin: AuthService of app/service/auth.py, with the queries on
--   sessions of app/dao/postgres/repository.py. The attempts are kept in memory and the rows in
--   transactions. Auth/Calls: any change of the sessions, and any history.
-- Evaluation/State and Jobs: EvaluationService of app/service/evaluation_jobs.py, with
--   app/dao/queries/evaluation_jobs.py, from claims to cancellations; a workbench is the jobs, their
--   cases and the users. Evaluation/Calls: any call, and any history.
-- Retrieval/State and Rerank: TextReranker.rerank of app/manager/rerank.py, given the provider's
--   answer, and the exceptions that leave it; Retrieval/Selection: what _finish of app/manager/retriever.py keeps before contexts are
--   added.
--
-- What is chosen. One run's rows are one state: the operations lock the run's row, so each is
-- one atomic step, and a history is a list of steps. Times are numbers of microseconds; what is
-- left of a budget stops at 0, since it is only compared with 0. Fresh tokens are arguments.
-- Identifiers, digests and hashes are only compared and are numbers. JSON sizes, SHA-256, the
-- capability and approval checks and session access are functions of the Environment, and no
-- theorem assumes anything of them. A checkpoint payload keeps the keys that the store reads,
-- and `detail` fields stand for values that are passed on unread. All loops of the model are
-- structural, but for the halving of a page's text, whose fuel is the length of the text.
-- A dict is the list of its rows in the order of insertion, and a set the ascending list of its
-- members. Message texts (the error_message of a document too) are left out.
--
-- A creation is one atomic step on all runs: the source locks the user, the session and the rows
-- that it reads, and the database's unique keys settle what is left. Each creation has its own
-- run id, which the source draws by `uuid4()`. Its preparation callback is an argument that may
-- raise or fill the snapshot and the message of the new row.
--
-- Not modelled: HTTP status codes, the creation and the worker of evaluations, sharing, and the
-- searches and contexts of retrieval; the language models, the tokenizer, the sandbox and the web
-- interface, which are input and output around this core.
pub mod Base
pub mod Transaction
pub mod Run
pub mod Ingestion
pub mod Evidence
pub mod Auth
pub mod Evaluation
pub mod Retrieval
