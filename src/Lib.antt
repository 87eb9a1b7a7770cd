-- ===== src/Lib.antt =====
-- Paperless Assistant: an agent that keeps the documents of a Paperless-NGX server in order, and the
-- control plane of the vendor that hands it work.
--
-- src/paperless_control_plane, in ControlPlane:
--   store.py: agents, enrollment tokens, job queues and the result cache. ControlPlane/Store has the
--     state, Store/Agents, Store/Queue and Store/Results the methods, under their names.
--     Store/Steps has the store over time as a relation of single calls.
--   billing.py: ControlPlane/Billing, subscriptions, the usage ledger and the spend cap.
--   inference.py: ControlPlane/Inference, one call of the vendor's model with its metering. It uses
--     the price table of src/paperless_assistant/providers/pricing.py, Providers/Pricing.
--   app.py: ControlPlane/App and App/Routes, the handlers over the store and the billing, and
--     `handle`, which routes a request to them; App/Threads, `_inference` in several threads.
--   direct.py: ControlPlane/Direct, the registry of the servers that the vendor may reach itself, and
--     Direct/Runner, the session with its allow list, the in-process transport and a run.
-- src/paperless_assistant/providers, in Providers:
--   base.py: Structured, the structured extraction with its validation and retries.
--   anthropic.py: Anthropic, the calls of the SDK. hosted_provider.py: Hosted, the calls of the proxy.
-- src/paperless_assistant, in Agent:
--   hosted_state.py: HostedState, the cursor of jobs and the queue of results.
--   hosted.py: Hosted and Hosted/Loop, which poll the control plane, run a job, push its result.
--   webhook.py: Webhook, with the id in Webhook/DocUrl and Webhook/DocId, and the handler in
--     Webhook/Receiver.
--   fields.py, stages.py, safety.py: Fields, Stages and Safety, the custom fields that carry the state
--     machine of a document, the queues of the stages, and the writes.
--   spend.py and the ledger of obs.py: Spend. ocr.py: Ocr, the re-OCR of a document.
--   taxonomy.py and metadata.py: Taxonomy and Metadata, the names and the write of the metadata.
--   sweep.py: Sweep, the workers of a stage as a list of events, and the loop of the scheduler.
--     Sweep/Run, one sweep over its stages with the cap of the period, and one nudged document.
--   client.py: Client and Client/Pages, the calls of the REST API. progress.py: Progress.
--   provision.py: Provision, the custom fields and tags that a setup makes sure of.
--   config.py: Config, the settings and the file; Config/Tables, which attribute comes from where;
--     Config/Load, the layers.
--
-- A state is a record, a method a function from state to state with each reading of the clock,
-- each random text and each uuid as an argument. A single call of a store is one step, since it
-- holds the lock of its store. What takes several steps is interleaved where its threads matter:
-- App/Threads has the checks of `_inference` and its call with the metering as events, since each
-- takes the billing lock by itself, and Sweep has the steps of the workers of a stage. A worker's
-- call of a pipeline is one event. Ticks and nudges follow each other: a nudge that runs beside a
-- tick is not modelled. A parked poll is a list of rounds, with what others do in between. The
-- transport, the engine behind a job, the model of the vendor, `scrypt`, the REST client, the
-- server behind it, the session below that of direct mode with the redirects that it meets, the
-- SDK of a provider, the check of a JSON schema, the host name of a URL and Python's `float` and
-- `str` of a score are parameters; so is the program of calls that an engine makes in direct mode.
--
-- An amount is a whole number of units of 10⁻⁸ dollar, in which every price of the table is whole, so
-- that sums are exact where Python's floats round; `round(x, 6)` goes to a multiple of 100 units. A
-- score is a whole number of units of 10⁻⁴. Time is a natural number, and a difference of two times is
-- compared by adding on the other side. Texts are compared and cut as ASCII.
--
-- Loops are structural recursion. The draining of the nudges runs on fuel, one round for each pending
-- document and one that finds none: enough while the pending ids are distinct, since each round treats
-- one of them. The loop of the hosted agent is bounded by its list of ticks.
--
-- Attempts of a request and of a model call are counted down as the source counts them. The pages of a
-- listing run on fuel, one round for each page, which is enough for a chain of pages that ends.
--
-- Not modelled: the files under /data and their atomic replacement, the HTTP servers, logs and
-- dashboards, the command lines and the web interface, the projections of the settings, the
-- reports, activity rows and retention of a sweep, the adapters of OpenAI and Ollama, and the
-- scripts stage0 to stage2, from which the package was made.
pub mod Agent
pub mod Base
pub mod ControlPlane
pub mod Providers
