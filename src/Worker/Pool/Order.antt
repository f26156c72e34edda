-- ===== src/Worker/Pool/Order.antt =====
-- What holds between any two acts of the workers.
use ts_queue.Job.{Job, is_waiting, reserved}
use ts_queue.Jobs.{get, put, modify, without, reserve}
use ts_queue.Jobs.Views.{get-put, get-modify}
use ts_queue.Memory.{MemoryConnection}
use ts_queue.Memory.Invariant.{IsValid}
use ts_queue.Prelude.{
  ℕ, String, true, List, ◌∷◌, Option, none, some, ◌≡◌, ◌≢◌, ◌∙◌, ap, refl, arith, same,
  if◌then◌else◌,
}
use ts_queue.Worker.Held.{
  IsWithin, IsOrdered, shrink-IsOrdered, store-IsOrdered, take-IsOrdered, settle-IsOrdered,
}

-- The memory connection keeps its invariant, and the stored and the held jobs are in order.
pub record IsOrderly (c : MemoryConnection) (held : List Job) : Type 0 where
  pub valid : IsValid c
  pub ordered : IsOrdered c.jobs held

pub shrink-IsOrderly :
    (c : MemoryConnection) (held : List Job) (m : MemoryConnection)
    → IsValid m
    → ((i : String) (j : Job) → get i m.jobs ≡ some j → get i c.jobs ≡ some j)
    → IsOrderly c held
    → IsOrderly m held
shrink-IsOrderly c held m v sub o = record {
  valid = v;
  ordered = shrink-IsOrdered c.jobs held m.jobs sub o.ordered;
}

pub store-IsOrderly :
    (c : MemoryConnection) (held : List Job) (m : MemoryConnection) (job : Job)
    → IsValid m
    → m.jobs ≡ put job c.jobs
    → get job.id held ≡ none
    → is_waiting job.status ≡ true
    → job.attempts ≡ 0
    → IsOrderly c held
    → IsOrderly m held
store-IsOrderly c held m job v e free w z o = record {
  valid = v;
  ordered =
      store-IsOrdered c.jobs held m.jobs job (λ i. ap (get i) e ∙ get-put job c.jobs i) free w z
        o.ordered;
}

pub take-IsOrderly :
    (c : MemoryConnection) (held : List Job) (m : MemoryConnection) (n : Job) (now : ℕ)
    → IsValid m
    → m.jobs ≡ modify n.id (reserve now) c.jobs
    → get n.id c.jobs ≡ some n
    → is_waiting n.status ≡ true
    → IsOrderly c held
    → IsOrderly m (reserve now n ∷ held)
take-IsOrderly c held m n now v e g w o = record {
  valid = v;
  ordered = take-IsOrdered c.jobs held m.jobs n now view g w o.ordered;
}
  where
    view :
        (i : String) → get i m.jobs ≡ (if same n.id i then some (reserve now n) else get i c.jobs)
    view i = ground (arith, ap (get i) e, get-modify n.id (reserve now) c.jobs i (λ _. refl), g)

pub settle-IsOrderly :
    (c : MemoryConnection) (held : List Job) (m : MemoryConnection) (h : Job) (left : Option Job)
    → IsValid m
    → ((i : String) → get i m.jobs ≡ (if same h.id i then left else get i c.jobs))
    → ((j : Job) → left ≡ some j → (j.status ≢ reserved) × IsWithin j)
    → IsOrderly c held
    → IsOrderly m (without h.id held)
settle-IsOrderly c held m h left v view settled o = record {
  valid = v;
  ordered = settle-IsOrdered c.jobs held m.jobs h left view settled o.ordered;
}
