-- ===== src/Resilience.antt =====
-- src/services/resilience_service.ts: what happens when a backing dependency is unavailable.
use adonisjs_lasagna_saas_te.Prelude.{String, Bool, Option, if◌then◌else◌}
use adonisjs_lasagna_saas_te.Exceptions.{dependency_unavailable, Result, ok, throw, M}

pub data FailurePolicy : Type 0 where
  fail_open fail_closed : FailurePolicy

-- The payload of the event `DependencyDegraded`, less the code of the error.
pub record DependencyDegraded : Type 0 where
  pub dependency : String
  pub operation : String
  pub tenant_id : Option String
  pub policy : FailurePolicy

pub record RunOptions (A : Type 0) : Type 0 where
  pub dependency : String
  pub operation : String
  pub policy : FailurePolicy
  pub tenant_id : Option String
  pub fallback : A

module _ {W A : Type 0} (observe : Bool) (emit : DependencyDegraded → W → W) where
  -- `#onDegraded`: silent where `config.resilience.observe` is false. The log line and the trace
  -- span are left out; the event is what the rest of the program can see.
  unfoldable pub on_degraded : RunOptions A → W → W
  on_degraded opts w =
      if observe
      then emit
          (record {
            dependency = opts.dependency;
            operation = opts.operation;
            tenant_id = opts.tenant_id;
            policy = opts.policy;
          })
          w
      else w

  -- What the policy makes of a failure.
  unfoldable pub degrade : FailurePolicy → RunOptions A → Result A
  degrade fail_open opts = ok opts.fallback
  degrade fail_closed opts =
      throw (dependency_unavailable opts.dependency opts.operation opts.tenant_id)

  -- The `try` and the `catch` of `run`, on the outcome of the dependency call.
  unfoldable pub settle : RunOptions A → Result A × W → Result A × W
  unfolding on_degraded degrade
  settle opts (ok a, w) = (ok a, w)
  settle opts (throw e, w) = (degrade opts.policy opts, on_degraded opts w)

  unfoldable pub run : RunOptions A → M W A → M W A
  unfolding settle
  run opts call w = settle opts (call w)
