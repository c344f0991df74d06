-- ===== src/Pipeline.antt =====
-- The parts together: every handler of the pipeline changes jobs and calls only by operations of
-- their repositories.
pub mod Handlers
pub mod Workers
pub mod Calls
pub mod Analysis
pub mod Results
pub mod Celery
pub mod Soundness
pub mod Transactions
pub mod Redelivery
mod Tests
use post_call_processing_pip.Common.{◌≡◌, refl}
use post_call_processing_pip.Settings.{Settings}
use post_call_processing_pip.Runtime.{Runtime}
use post_call_processing_pip.Models.{Db}
use post_call_processing_pip.Jobs.Invariant.{Operation, operate}
use post_call_processing_pip.Interactions.Log.{Update, apply}

-- One operation: on the jobs, on the calls and leads, or on what is neither (token usage, audit
-- events, metrics).
pub data Call (s : Settings) (rt : Runtime) (a b : Db) : Type 0 where
  on_jobs : (o : Operation) → b ≡ operate s o a → Call s rt a b
  on_calls : (u : Update) → b ≡ apply rt u a → Call s rt a b
  elsewhere :
      b.jobs ≡ a.jobs → b.next_uuid ≡ a.next_uuid → b.interactions ≡ a.interactions → Call s rt a b

-- Some operations, one after the other.
pub data Trace (s : Settings) (rt : Runtime) : Db → Db → Type 0 where
  here : {db : Db} → Trace s rt db db
  then_ : {a c : Db} (b : Db) → Call s rt a b → Trace s rt b c → Trace s rt a c

infixl 4 ◌▷◌
pub ◌▷◌ :
    {s : Settings} {rt : Runtime} {a b c : Db} → Trace s rt a b → Trace s rt b c → Trace s rt a c
here ▷ u = u
then_ b c t ▷ u = then_ b c (t ▷ u)

module _ {s : Settings} {rt : Runtime} {a b : Db} where
  pub job_call : (o : Operation) → b ≡ operate s o a → Trace s rt a b
  job_call o e = then_ b (on_jobs o e) here

  pub update_call : (u : Update) → b ≡ apply rt u a → Trace s rt a b
  update_call u e = then_ b (on_calls u e) here

  pub other_call :
      b.jobs ≡ a.jobs → b.next_uuid ≡ a.next_uuid → b.interactions ≡ a.interactions → Trace s rt a b
  other_call jobs ids calls = then_ b (elsewhere jobs ids calls) here
