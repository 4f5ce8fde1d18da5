-- ===== src/Client/Requests/Laws.antt =====
-- When `Update` answers with a conflict, and what a caller makes of it.
use kubernetes_workflow.Base.{
  String, true, false, some, none, ◌==◌, ◌≡◌, ◌↔◌, ◌⊎◌, ap, ◌∙◌, refl, inl, inr, Option-cases,
  Bool-cases,
}
use kubernetes_workflow.Api.Types.{Workflow}
use kubernetes_workflow.World.{updated, status_error, other_error}
use kubernetes_workflow.Client.Requests.{
  Http, workflow_url, decode_answer, put_workflow, update, update_answer,
}

module _ {Status : Type 0} (http : Http Status) (base ns : String) (wf : Workflow) where
  -- The server was sent the workflow, and the body of its answer was read.
  abbrev pub Answered : String → Type 0
  Answered body =
      (sent : String) × (http.encode wf ≡ some sent)
      × (http.makes_request (workflow_url http base ns wf.meta.name) ≡ true)
      × (http.put (workflow_url http base ns wf.meta.name) sent ≡ some (some body))

  pub update-Answered :
      (body : String)
      → (wf.meta.name == "" ≡ false)
      → Answered body
      → update http base ns wf ≡ decode_answer http body
  unfolding update put_workflow
  update-Answered body named (sent, encoded, requested, came) =
      simp (named, encoded, requested, came)

  put_cases :
      (sent : String)
      → http.encode wf ≡ some sent
      → wf.meta.name == "" ≡ false
      → (update_answer (put_workflow http (workflow_url http base ns wf.meta.name) sent)
          ≡ other_error)
        ⊎ ((body : String) × Answered body)
  unfolding put_workflow
  put_cases sent encoded named =
      let url = workflow_url http base ns wf.meta.name in
      elim (Bool-cases (http.makes_request url)) [
        | inr unrequested ↦ inl (simp unrequested refl)
        | inl requested ↦ elim (Option-cases (http.put url sent)) [
          | inl lost ↦ inl (simp (requested, lost) refl)
          | inr (read, came) ↦ elim (Option-cases read) [
            | inl unread ↦ inl (simp (requested, came, unread) refl)
            | inr (body, is_body) ↦ inr (body, (sent, encoded, requested, came ∙ ap some is_body))
          ]
        ]
      ]

  update_cases :
      (update_answer (update http base ns wf) ≡ other_error)
      ⊎ ((body : String) × (wf.meta.name == "" ≡ false) × Answered body)
  unfolding update
  update_cases = elim (Bool-cases (wf.meta.name == "")) [
    | inl nameless ↦ inl (simp nameless refl)
    | inr named ↦ elim (Option-cases (http.encode wf)) [
      | inl failed ↦ inl (simp (named, failed) refl)
      | inr (sent, encoded) ↦ elim (put_cases sent encoded named) [
        | inl other ↦ inl (simp (named, encoded) other)
        | inr (body, answered) ↦ inr (body, named, answered)
      ]
    ]
  ]

  decode_cases :
      (body : String)
      → ((x : Workflow) × (http.unmarshal_workflow body ≡ some x)
          × (update_answer (decode_answer http body) ≡ updated))
        ⊎ ((s : Status) × (http.unmarshal_workflow body ≡ none)
            × (http.unmarshal_status body ≡ some s)
            × (update_answer (decode_answer http body) ≡ status_error))
        ⊎ (update_answer (decode_answer http body) ≡ other_error)
  unfolding decode_answer
  decode_cases body = elim (Option-cases (http.unmarshal_workflow body)) [
    | inr (x, is_workflow) ↦ inl (x, is_workflow, rw (is_workflow, decode_answer) refl)
    | inl no_workflow ↦ elim (Option-cases (http.unmarshal_status body)) [
      | inr (s, is_status) ↦
          inr (inl (s, no_workflow, is_status, rw (no_workflow, is_status, decode_answer) refl))
      | inl no_status ↦ inr (inr (rw (no_workflow, no_status, decode_answer) refl))
    ]
  ]

  -- The answer is no workflow but a status.
  abbrev pub Refuses : String → Type 0
  Refuses body =
      Answered body
      × (http.unmarshal_workflow body ≡ none)
      × ((s : Status) × (http.unmarshal_status body ≡ some s))

  refuses :
      (body : String)
      → wf.meta.name == "" ≡ false
      → Refuses body
      → update_answer (update http base ns wf) ≡ status_error
  unfolding decode_answer
  refuses body named (answered, no_workflow, (s, is_status)) =
      ap update_answer (update-Answered body named answered)
      ∙ rw (no_workflow, is_status, decode_answer) refl

  -- `Update` returns a `StatusError`, which its caller takes for a conflict, exactly where the workflow
  -- has a name, it was sent, and the body of the answer was read and is a status but no workflow.
  pub update_refused_iff :
      (update_answer (update http base ns wf) ≡ status_error)
      ↔ ((wf.meta.name == "" ≡ false) × ((body : String) × Refuses body))
  update_refused_iff = (
    λ conflict. elim update_cases [
      | inl other ↦ cc (other, conflict)
      | inr (body, named, answered) ↦
          let decoded = ap update_answer (update-Answered body named answered) in
          elim (decode_cases body) [
            | inl (x, is_workflow, success) ↦ cc (decoded, success, conflict)
            | inr (inl (s, no_workflow, is_status, same)) ↦
                (named, (body, (answered, no_workflow, (s, is_status))))
            | inr (inr other) ↦ cc (decoded, other, conflict)
          ]
    ],
    λ (named, (body, refusal)). refuses body named refusal,
  )
