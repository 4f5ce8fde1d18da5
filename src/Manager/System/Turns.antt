-- ===== src/Manager/System/Turns.antt =====
-- The manager where the outside answers: a worker is given the key, and the informer then reports the
-- workflow as the round sent it, where it sent it. One turn after the other is a sequence of events.
use kubernetes_workflow.Base.{
  ◌≡◌, refl, sym, ap, ◌∙◌, subst, arith, false, String, ℕ, zero, suc, String, List, [], ◌∷◌, Bool,
  Option, some, none, ltb, length, if◌then◌else◌,
}
use kubernetes_workflow.Api.Meta.{Job}
use kubernetes_workflow.Api.Types.{Workflow}
use kubernetes_workflow.World.{Cluster}
use kubernetes_workflow.GoMap.{lookup, insert}
use kubernetes_workflow.GoMap.Laws.{lookup-insert_self}
use kubernetes_workflow.Manager.{work}
use kubernetes_workflow.Manager.System.{restore, worked, workflow_updated, System, advance}

-- The workflow that was sent last, where one was sent since.
abbrev pub newest : List Workflow → List Workflow → Option Workflow
newest before [] = none
newest before (u ∷ sent) = if ltb (length before) (suc (length sent)) then some u else none

newest-sent : (wf : Workflow) (sent : List Workflow) → newest sent (wf ∷ sent) ≡ some wf
newest-sent wf sent = ground arith

not-shorter : (n : ℕ) → ltb n n ≡ false
not-shorter n = ground arith

newest-none : (sent : List Workflow) → newest sent sent ≡ none
newest-none [] = refl
newest-none (wf ∷ sent) = simp (not-shorter (suc (length sent)))

module _ (cluster : Cluster) (deep_equal : Job → Job → Bool) (key : String) where
  abbrev pub report : Option Workflow → System → System
  report none s = s
  report (some wf) s = advance cluster deep_equal (workflow_updated wf) s

  unfoldable pub turn : System → System
  turn s =
      let s' = advance cluster deep_equal (worked key) s in
      report (newest s.world.updates s'.world.updates) s'

  unfoldable pub turns : ℕ → System → System
  turns zero s = s
  turns (suc n) s = turns n (turn s)

  reported :
      (o : Option Workflow) (wf : Workflow) (s : System)
      → o ≡ some wf
      → cluster.key_func wf.meta ≡ some key
      → lookup key (report o s).world.store ≡ some wf
  unfolding advance
  reported o wf s e keyed =
      subst (λ p. lookup key (report p s).world.store ≡ some wf) (sym e)
        (subst (λ k. lookup key (restore (λ j store. insert j wf store) k s.world).store ≡ some wf)
          (sym keyed) (lookup-insert_self key wf s.world.store))

  unreported : (o : Option Workflow) (s : System) → o ≡ none → report o s ≡ s
  unreported o s e = rw e refl

  -- A round that sends the workflow: the informer then stores it.
  pub turn-sent :
      (wf : Workflow) (s : System)
      → (work cluster key s.world).1.updates ≡ wf ∷ s.world.updates
      → cluster.key_func wf.meta ≡ some key
      → lookup key (turn s).world.store ≡ some wf
  unfolding turn advance
  turn-sent wf s sent keyed =
      reported _ wf _ (ap (newest s.world.updates) sent ∙ newest-sent wf s.world.updates) keyed

  -- A round that sends nothing and leaves the store: nothing is reported.
  pub turn-quiet :
      (s : System)
      → (work cluster key s.world).1.updates ≡ s.world.updates
      → (work cluster key s.world).1.store ≡ s.world.store
      → (turn s).world.store ≡ s.world.store
  unfolding turn advance
  turn-quiet s quiet stored =
      ap (λ t. t.world.store)
        (unreported _ _ (ap (newest s.world.updates) quiet ∙ newest-none s.world.updates))
      ∙ stored
