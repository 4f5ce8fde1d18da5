-- ===== src/Client/Watcher/Laws.antt =====
-- What the reader of a watch sees, whatever the order of the moves.
use kubernetes_workflow.Base.{
  ℕ, suc, String, List, [], ◌∷◌, ◌++◌, Bool, true, false, Option, some, none, ◌≡◌, refl, sym, ap,
  ◌∙◌, subst,
}
use mathlib.Core.List.{append_assoc, append-nil}
use kubernetes_workflow.GoMap.{Entries, lookup}
use kubernetes_workflow.Api.Types.{Workflow}
use kubernetes_workflow.Client.{LoopStep, Variables, Poll, poll, watch}
use kubernetes_workflow.Client.Memory.{Change, look, performed, performed-append, seen, seen-append}
use kubernetes_workflow.Client.Requests.{unreached, undecoded, nil_result, fetched}
use kubernetes_workflow.Client.Laws.{listed}
use kubernetes_workflow.Client.Replay.{replay}
use kubernetes_workflow.Client.Follow.{last_list, Agrees, watch_follows}
use kubernetes_workflow.Client.ThirdParty.{ThirdPartyClient}
use kubernetes_workflow.Client.Watcher.{
  new_workflows, workflows, start_watch, new_third_party_watcher, stop, Watching, tick, Watched,
  begins, ticks, writes, receives, stops,
}

-- Every answer brought a list.
abbrev AllListed : List (Option (List Workflow)) → Type 0
AllListed [] = Unit
AllListed (none ∷ answers) = ⊥
AllListed (some items ∷ answers) = AllListed answers

AllListed-append :
    (answers : List (Option (List Workflow))) (items : List Workflow)
    → AllListed answers
    → AllListed (answers ++ some items ∷ [])
AllListed-append [] items h = tt
AllListed-append (none ∷ answers) items h = h
AllListed-append (some first ∷ answers) items h = AllListed-append answers items h

-- The address of the next variable after these answers.
abbrev after_polls : List (Option (List Workflow)) → ℕ → ℕ
after_polls [] fresh = fresh
after_polls (none ∷ answers) fresh = fresh
after_polls (some items ∷ answers) fresh = after_polls answers (suc (suc fresh))

after_polls-append :
    (answers : List (Option (List Workflow))) (items : List Workflow) (fresh : ℕ)
    → AllListed answers
    → after_polls (answers ++ some items ∷ []) fresh ≡ suc (suc (after_polls answers fresh))
after_polls-append [] items fresh h = refl
after_polls-append (none ∷ answers) items fresh h = absurd h
after_polls-append (some first ∷ answers) items fresh h =
    after_polls-append answers items (suc (suc fresh)) h

module _ (deep_equal : Workflow → Workflow → Bool) where
  -- What the watch remembers, and its steps, after these answers.
  abbrev last_map : List (Option (List Workflow)) → Entries Workflow
  last_map answers = (watch deep_equal answers 0 []).0

  abbrev all_steps : List (Option (List Workflow)) → List LoopStep
  all_steps answers = (watch deep_equal answers 0 []).1

  -- No list after answers that all brought a list.
  watch-ended :
      (answers : List (Option (List Workflow))) (fresh : ℕ) (name_map : Entries Workflow)
      → AllListed answers
      → watch deep_equal (answers ++ none ∷ []) fresh name_map
        ≡ watch deep_equal answers fresh name_map
  unfolding watch
  watch-ended [] fresh name_map h = refl
  watch-ended (none ∷ answers) fresh name_map h = absurd h
  watch-ended (some items ∷ answers) fresh name_map h =
      let p = poll deep_equal fresh items name_map in
      ap (λ (r : Entries Workflow × List LoopStep). (r.0, p.steps ++ r.1))
        (watch-ended answers (suc (suc fresh)) p.name_map h)

  -- One more list after answers that all brought a list.
  watch-append :
      (answers : List (Option (List Workflow))) (items : List Workflow) (fresh : ℕ)
      (name_map : Entries Workflow)
      → AllListed answers
      → watch deep_equal (answers ++ some items ∷ []) fresh name_map ≡ (
        (poll deep_equal
            (after_polls answers fresh)
            items
            (watch deep_equal answers fresh name_map).0).name_map,
        (watch deep_equal answers fresh name_map).1
            ++ (poll deep_equal
                (after_polls answers fresh)
                items
                (watch deep_equal answers fresh name_map).0).steps,
      )
  unfolding watch
  watch-append [] items fresh name_map h =
      let p = poll deep_equal fresh items name_map in
      ap (λ (l : List LoopStep). (p.name_map, l)) (append-nil p.steps)
  watch-append (none ∷ answers) items fresh name_map h = absurd h
  watch-append (some first ∷ answers) items fresh name_map h =
      let p = poll deep_equal fresh first name_map in
      let later = suc (suc fresh) in
      let last = (watch deep_equal answers later p.name_map).0 in
      let p' = poll deep_equal (after_polls answers later) items last in
      ap (λ (r : Entries Workflow × List LoopStep). (r.0, p.steps ++ r.1))
        (watch-append answers items later p.name_map h)
      ∙ ap (λ (l : List LoopStep). (p'.name_map, l)) (sym (append_assoc p.steps _ p'.steps))

-- No variable holds anything yet.
abbrev nothing : Variables
nothing p = none

module _ {Rest : Type 0} (client : ThirdPartyClient Rest) (ns : String)
    (deep_equal : Workflow → Workflow → Bool) where
  -- What the reader saw, and what it is still to see, is what is seen of the steps of all polls.
  record IsFaithful (answers : List (Option (List Workflow))) (s : Watching) (saw : List Change)
      : Type 0 where
    remembered : s.name_map ≡ last_map deep_equal answers
    counted : s.running ≡ true → s.fresh ≡ after_polls answers 0
    complete : saw ++ seen s.left s.variables ≡ seen (all_steps deep_equal answers) nothing
    holds : performed s.left s.variables ≡ performed (all_steps deep_equal answers) nothing
    going : s.running ≡ true → AllListed answers

  ended :
      {answers : List (Option (List Workflow))} {s : Watching} {saw : List Change} (crash : Bool)
      → s.running ≡ true
      → IsFaithful answers s saw
      → IsFaithful (answers ++ none ∷ []) (record s { running = false; crashed = crash }) saw
  ended {answers} {s} crash r i =
      let same = watch-ended deep_equal answers 0 [] (i.going r) in
      record {
        remembered = i.remembered ∙ sym (ap (λ x. x.0) same);
        counted = λ go. cc;
        complete = i.complete ∙ sym (ap (λ x. seen x.1 nothing) same);
        holds = i.holds ∙ sym (ap (λ x. performed x.1 nothing) same);
        going = λ go. cc;
      }

  -- A tick that brings a list.
  polled :
      {answers : List (Option (List Workflow))} {s : Watching} {saw : List Change}
      (items : List Workflow)
      → s.running ≡ true
      → s.left ≡ []
      → IsFaithful answers s saw
      → IsFaithful (answers ++ some items ∷ []) (tick deep_equal (fetched items) s) saw
  unfolding tick seen performed
  polled {answers} {s} {saw} items r o i =
      let grown = watch-append deep_equal answers items 0 [] (i.going r) in
      let poll_of = λ (fresh : ℕ) (m : Entries Workflow). poll deep_equal fresh items m in
      let p = poll_of s.fresh s.name_map in
      let same_poll : p ≡ poll_of (after_polls answers 0) (last_map deep_equal answers) =
        ap (λ n. poll_of n s.name_map) (i.counted r) ∙ ap (poll_of _) i.remembered in
      let before = all_steps deep_equal answers in
      let held : s.variables ≡ performed before nothing =
        ap (λ l. performed l s.variables) (sym o) ∙ i.holds in
      let had : saw ≡ seen before nothing =
        sym (append-nil saw) ∙ ap (λ l. saw ++ seen l s.variables) (sym o) ∙ i.complete in
      let steps : all_steps deep_equal (answers ++ some items ∷ []) ≡ before ++ p.steps =
        ap (λ x. x.1) grown ∙ ap (λ (q : Poll). before ++ q.steps) (sym same_poll) in
      record {
        remembered = ap (λ (q : Poll). q.name_map) same_poll ∙ sym (ap (λ x. x.0) grown);
        counted = λ go.
            (ap (λ n. suc (suc n)) (i.counted r)
              ∙ sym (after_polls-append answers items 0 (i.going r)));
        complete =
            ap (λ l. l ++ seen p.steps s.variables) had
            ∙ ap (λ v. seen before nothing ++ seen p.steps v) held
            ∙ sym (seen-append before p.steps nothing)
            ∙ sym (ap (λ l. seen l nothing) steps);
        holds =
            ap (performed p.steps) held
            ∙ sym (performed-append before p.steps nothing)
            ∙ sym (ap (λ l. performed l nothing) steps);
        going = λ go. AllListed-append answers items (i.going r);
      }

  Watched-IsFaithful :
      {answers : List (Option (List Workflow))} {s : Watching} {saw : List Change}
      → Watched client ns deep_equal answers s saw
      → IsFaithful answers s saw
  unfolding watch new_third_party_watcher tick stop new_workflows workflows start_watch seen
      performed
  Watched-IsFaithful begins = record {
    remembered = refl;
    counted = λ r. refl;
    complete = refl;
    holds = refl;
    going = λ r. tt;
  }
  Watched-IsFaithful (ticks {s} unreached w r o) = ended s.crashed r (Watched-IsFaithful w)
  Watched-IsFaithful (ticks {s} undecoded w r o) = ended s.crashed r (Watched-IsFaithful w)
  Watched-IsFaithful (ticks {s} nil_result w r o) = ended true r (Watched-IsFaithful w)
  Watched-IsFaithful (ticks {s} (fetched items) w r o) = polled items r o (Watched-IsFaithful w)
  Watched-IsFaithful (writes {answers} {s} {saw} variable wf steps w o) =
      let i = Watched-IsFaithful w in
      record {
        remembered = i.remembered;
        counted = i.counted;
        complete = ap (λ l. saw ++ seen l s.variables) (sym o) ∙ i.complete;
        holds = ap (λ l. performed l s.variables) (sym o) ∙ i.holds;
        going = i.going;
      }
  Watched-IsFaithful (receives {answers} {s} {saw} e steps w o) =
      let i = Watched-IsFaithful w in
      record {
        remembered = i.remembered;
        counted = i.counted;
        complete =
            append_assoc saw (look e s.variables) (seen steps s.variables)
            ∙ ap (λ l. saw ++ seen l s.variables) (sym o)
            ∙ i.complete;
        holds = ap (λ l. performed l s.variables) (sym o) ∙ i.holds;
        going = i.going;
      }
  Watched-IsFaithful (stops {answers} {s} w alive) =
      let i = Watched-IsFaithful w in
      record {
        remembered = i.remembered;
        counted = i.counted;
        complete = i.complete;
        holds = i.holds;
        going = i.going;
      }

  module _ (reflexive : (x : Workflow) → deep_equal x x ≡ true)
      (transitive : (x y z : Workflow)
        → deep_equal x y ≡ true
        → deep_equal y z ≡ true
        → deep_equal x z ≡ true) where
    -- In whatever order the watch ticks, writes the variables of its loops and sends its events, and is
    -- stopped: a reader that starts with nothing, and looks behind the address in each event as it comes
    -- through the channel, before the loop goes on, has under each name, once the last poll is through,
    -- what the last list before an error has, up to deep equality, which is reflexive and transitive.
    pub received_agree :
        {answers : List (Option (List Workflow))} {s : Watching} {saw : List Change} (k : String)
        → Watched client ns deep_equal answers s saw
        → s.left ≡ []
        → Agrees deep_equal (lookup k (replay saw [])) (listed k (last_list answers []))
    unfolding seen
    received_agree {answers} {s} {saw} k w o =
        subst
          (λ changes.
            Agrees deep_equal (lookup k (replay changes [])) (listed k (last_list answers [])))
          (sym (Watched-IsFaithful w).complete
            ∙ ap (λ l. saw ++ seen l s.variables) o
            ∙ append-nil saw)
          (watch_follows deep_equal reflexive transitive answers 0 nothing k)
