-- ===== src/Visitor/Working.antt =====
-- Invariants of a worker of visitor.go, from those of the processing of its jobs.
use tobey.Common.{List, [], ◌∷◌, All, Option, none, some, Option-cases, inl, inr, Returns}
use tobey.Ctrlq.Job.{VisitJob, validate}
use tobey.Visitor.{
  Fault, Parts, process, Event, done, failed, nil_job, job, Worker, waits, returns, exits, panics,
  work, turn, run,
}
use tobey.Visitor.Keeping.{First}

module _ {W : Type 0} (P : W → Type 0) where
  -- For a worker, where it does not panic.
  abbrev pub WorkerKept : Worker W → Type 0
  WorkerKept (waits w) = P w
  WorkerKept (returns err w) = P w
  WorkerKept (exits fault w) = P w
  WorkerKept panics = Unit

  module _ (x : Parts W) where
    -- The jobs among the events keep `P`.
    abbrev pub Takes : Event → Type 0
    Takes (job j) = (w : W) → P w → Returns (First P) (process x j w)
    Takes other = Unit

    processed-Kept :
        (o : Option (W × Option Fault))
        → Returns (First P) o
        → WorkerKept (elim o [
          | none ↦ panics
          | some (w1, none) ↦ waits w1
          | some (w1, some fault) ↦ exits fault w1
        ])
    processed-Kept none h = tt
    processed-Kept (some (w, none)) h = h
    processed-Kept (some (w, some fault)) h = h

    work-Kept :
        (j : VisitJob) (w : W)
        → ((w : W) → P w → Returns (First P) (process x j w))
        → P w
        → WorkerKept (work x j w)
    unfolding work
    work-Kept j w takes h = elim (Option-cases (validate j)) [
      | inl valid ↦ rw (valid, work) (processed-Kept (process x j w) (takes w h))
      | inr (invalid, e) ↦ rw (e, work) h
    ]

    turn-Kept : (e : Event) (w : W) → Takes e → P w → WorkerKept (turn x e w)
    turn-Kept done w takes h = h
    turn-Kept (failed err) w takes h = h
    turn-Kept nil_job w takes h = tt
    turn-Kept (job j) w takes h = work-Kept j w takes h

    further-Kept :
        (es : List Event) (t : Worker W)
        → ((w : W) → P w → WorkerKept (run x es w))
        → WorkerKept t
        → WorkerKept (elim t [ waits w1 ↦ run x es w1 | other ↦ other ])
    further-Kept es (waits w1) later k = later w1 k
    further-Kept es (returns err w1) later k = k
    further-Kept es (exits fault w1) later k = k
    further-Kept es panics later k = tt

    -- What the processing of its jobs keeps, a worker keeps.
    pub run-Kept : (es : List Event) (w : W) → All Takes es → P w → WorkerKept (run x es w)
    unfolding run
    run-Kept [] w takes h = h
    run-Kept (e ∷ es) w (first, rest) h =
        further-Kept es (turn x e w) (λ w1 h1. run-Kept es w1 rest h1) (turn-Kept e w first h)
