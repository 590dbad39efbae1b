-- ===== src/Invariant/Holds.antt =====
-- The two invariants together, and that the handlers of the engine keep them.
use flowscale.Prelude.{String, Bool, List}
use flowscale.Models.{ExecutionStatus}
use flowscale.Runtime.{Db, Published}
use flowscale.Engine.Stable.Writes.{Stable}
use flowscale.Engine.Stable.Start.{StableStart}
use flowscale.Invariant.Consistent.{IsConsistent, Consistent-Stable, Consistent-StableStart}
use flowscale.Invariant.Dispatched.{IsDispatched, IsDispatched-Stable, IsDispatched-StableStart}

-- The tables are consistent, and every pending activity has been handed to the workers.
pub record Holds (db : Db) (b : List Published) : Type 0 where
  pub consistent : IsConsistent db
  pub dispatched : IsDispatched db b

pub Holds-Stable : (eid : String) (may : ExecutionStatus → Bool) → Stable eid may Holds
Holds-Stable eid may =
    let c = Consistent-Stable eid may in
    let d = IsDispatched-Stable eid may in
    record {
      execution = λ f db b p h. record {
        consistent = c.execution f db b p h.consistent;
        dispatched = d.execution f db b p h.dispatched;
      };
      settle = λ id f db b s h. record {
        consistent = c.settle id f db b s h.consistent;
        dispatched = d.settle id f db b s h.dispatched;
      };
      event = λ e db db' b i h. record {
        consistent = c.event e db db' b i h.consistent;
        dispatched = d.event e db db' b i h.dispatched;
      };
      outbox = λ now msg db db' b i h. record {
        consistent = c.outbox now msg db db' b i h.consistent;
        dispatched = d.outbox now msg db db' b i h.dispatched;
      };
      next = λ act e msg now db db' b i new ann h. record {
        consistent = c.next act e msg now db db' b i new ann h.consistent;
        dispatched = d.next act e msg now db db' b i new ann h.dispatched;
      };
    }

pub Holds-StableStart : StableStart Holds
Holds-StableStart = record {
  execution = λ row db db' b i h. record {
    consistent = Consistent-StableStart.execution row db db' b i h.consistent;
    dispatched = IsDispatched-StableStart.execution row db db' b i h.dispatched;
  };
}
