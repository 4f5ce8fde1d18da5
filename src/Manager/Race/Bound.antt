-- ===== src/Manager/Race/Bound.antt =====
-- How many jobs of one step are created, whatever the order of the moves.
use kubernetes_workflow.Base.{
  ℕ, suc, ◌+◌, ◌≤◌, String, List, [], ◌∷◌, true, Option, ◌≡◌, ◌⊎◌, inl, inr, refl, sym, ap, ◌∙◌,
  subst, arith, length, eq_refl,
}
use kubernetes_workflow.Api.Meta.{JobTemplateSpec, Job}
use kubernetes_workflow.Api.Types.{Workflow}
use kubernetes_workflow.Expectations.Laws.{pending, satisfied-pending}
use kubernetes_workflow.Job.{workflow_job_label_set}
use kubernetes_workflow.World.{Cluster}
use kubernetes_workflow.Transitioner.Steps.{key_of}
use kubernetes_workflow.Transitioner.Steps.Listed.{SelectsWithin, list_jobs-head, selects_step}
use kubernetes_workflow.Manager.Race.{
  idle, cleared, accepted, listed, Race, jobs_of, IsStepJob, Move, lists, leaves, waits, clears,
  fails, creates, expects, reports, handles, elsewhere, Reach, here, next, IsStart,
}
use kubernetes_workflow.Manager.Race.Choice.{
  Chosen, Awaited, pending-expect_self, unaccepted, Chosen-crossing, crossed_more, Chosen-settled,
  Chosen-listed,
}

module _ (cluster : Cluster) (start : ℕ) (wf : Workflow) (template : JobTemplateSpec)
    (name : String) where
  abbrev step_jobs : Race → ℕ
  step_jobs s = length (jobs_of cluster wf template name s.stored)

  abbrev since : Race → Option ℕ
  since s = pending s.expectations (key_of cluster wf) name

  -- Where a job was created and none is stored, the creation is awaited, unless the worker is about to
  -- say so.
  record IsSound (s : Race) : Type 0 where
    counted : s.unreported + step_jobs s ≡ s.created
    handled : s.unhandled ≤ step_jobs s
    bounded : s.created ≤ 2
    explained : s.created ≤ suc s.crossed
    held : s.created ≤ suc (step_jobs s)
    awaited : (s.phase ≡ accepted) ⊎ ((s.created ≡ 0) ⊎ (1 ≤ step_jobs s)) ⊎ Awaited start (since s)
    chosen : Chosen s.phase s.created (step_jobs s) s.crossed

  IsStart-IsSound : (s : Race) → IsStart cluster wf template name s → IsSound s
  IsStart-IsSound s b = record {
    counted = rw (b.none_unreported, b.none_stored) (sym b.none_created);
    handled = rw b.none_unhandled (omega arith);
    bounded = rw b.none_created (omega arith);
    explained = rw b.none_created (omega arith);
    held = rw b.none_created (omega arith);
    awaited = inr (inl (inl b.none_created));
    chosen = rw b.at_rest tt;
  }

  module _ (selects : SelectsWithin cluster) where
    stored_more :
        (job : Job) (stored : List Job)
        → IsStepJob wf template name job
        → length (jobs_of cluster wf template name (job ∷ stored))
          ≡ suc (length (jobs_of cluster wf template name stored))
    stored_more job stored own = ap length (
        list_jobs-head cluster wf.meta.namespace (workflow_job_label_set wf template name) job
          stored true own.1
          (rw own.0 (
            selects_step cluster selects wf template template name name (λ e. refl)
            ∙ eq_refl name)))

    Move-IsSound : {s u : Race} → Move cluster start wf template name s u → IsSound s → IsSound u
    Move-IsSound (lists s e) i = record {
      counted = i.counted;
      handled = i.handled;
      bounded = i.bounded;
      explained = i.explained;
      held = i.held;
      awaited = inr (unaccepted idle e refl i.awaited);
      chosen = Chosen-listed _ s.created s.crossed i.held;
    }
    Move-IsSound (leaves s job jobs e) i = record {
      counted = i.counted;
      handled = i.handled;
      bounded = i.bounded;
      explained = i.explained;
      held = i.held;
      awaited = inr (unaccepted (listed (job ∷ jobs)) e refl i.awaited);
      chosen = tt;
    }
    Move-IsSound (waits s now e window unsettled) i = record {
      counted = i.counted;
      handled = i.handled;
      bounded = i.bounded;
      explained = i.explained;
      held = i.held;
      awaited = inr (unaccepted (listed []) e refl i.awaited);
      chosen = tt;
    }
    Move-IsSound (clears s now e window clear) i = record {
      counted = i.counted;
      handled = i.handled;
      bounded = i.bounded;
      explained = i.explained;
      held = i.held;
      awaited = inr (unaccepted (listed []) e refl i.awaited);
      chosen =
          Chosen-settled start now (since s) s.created (step_jobs s) s.crossed window
            (sym (satisfied-pending now (key_of cluster wf) name s.expectations) ∙ clear)
            (unaccepted (listed []) e refl i.awaited)
            (subst (λ p. Chosen p s.created (step_jobs s) s.crossed) e i.chosen);
    }
    Move-IsSound (fails s e) i = record {
      counted = i.counted;
      handled = i.handled;
      bounded = i.bounded;
      explained = i.explained;
      held = i.held;
      awaited = inr (unaccepted cleared e refl i.awaited);
      chosen = tt;
    }
    Move-IsSound (creates s e) i =
        let c = subst (λ p. Chosen p s.created (step_jobs s) s.crossed) e i.chosen in
        record {
          counted = omega (arith, i.counted);
          handled = i.handled;
          bounded = omega (arith, c.0);
          explained = omega (arith, c.2);
          held = omega (arith, c.1);
          awaited = inl refl;
          chosen = tt;
        }
    Move-IsSound (expects s now e window) i = record {
      counted = i.counted;
      handled = i.handled;
      bounded = i.bounded;
      explained = i.explained;
      held = i.held;
      awaited = inr (
          inr (
            subst (Awaited start)
              (sym (pending-expect_self now (key_of cluster wf) name s.expectations)) window));
      chosen = tt;
    }
    Move-IsSound (reports s job n own e) i =
        let grown = stored_more job s.stored own in
        record {
          counted = omega (arith, i.counted, grown, e);
          handled = omega (arith, i.handled, grown);
          bounded = i.bounded;
          explained = omega (arith, i.explained, crossed_more s.phase s.crossed);
          held = omega (arith, i.held, grown);
          awaited = inr (inl (inr (omega (arith, grown))));
          chosen = rw grown (Chosen-crossing s.phase s.created (step_jobs s) s.crossed i.chosen);
        }
    Move-IsSound (handles s job n own e) i = record {
      counted = i.counted;
      handled = omega (arith, i.handled, e);
      bounded = i.bounded;
      explained = i.explained;
      held = i.held;
      awaited = inr (inl (inr (omega (arith, i.handled, e))));
      chosen = i.chosen;
    }
    Move-IsSound (elsewhere s expectations stored same kept) i = record {
      counted = rw kept i.counted;
      handled = rw kept i.handled;
      bounded = i.bounded;
      explained = i.explained;
      held = rw kept i.held;
      awaited = rw (kept, same) i.awaited;
      chosen = rw kept i.chosen;
    }

    Reach-IsSound :
        {s u : Race}
        → IsStart cluster wf template name s
        → Reach cluster start wf template name s u
        → IsSound u
    Reach-IsSound b here = IsStart-IsSound _ b
    Reach-IsSound b (next path move) = Move-IsSound move (Reach-IsSound b path)

    -- From a start, whatever the order of the moves, at most two jobs are created for the step, and at
    -- most one more than the times that a job is stored between a list that finds none and the look at
    -- the expectations; as long as the clock stays within the timeout.
    pub created_bounded :
        {s u : Race}
        → IsStart cluster wf template name s
        → Reach cluster start wf template name s u
        → (u.created ≤ 2) × (u.created ≤ suc u.crossed)
    created_bounded b path = let i = Reach-IsSound b path in (i.bounded, i.explained)
