-- ===== src/Manager/Race/Choice.antt =====
-- What the worker of a race knows where it is about to create a job.
use kubernetes_workflow.Base.{
  ℕ, suc, ◌≤◌, String, List, [], ◌∷◌, Bool, true, false, Option, some, none, ◌≡◌, ◌⊎◌, inl, inr,
  sym, ap, ◌∙◌, arith, length, eq_refl,
}
use kubernetes_workflow.Api.Meta.{Job}
use kubernetes_workflow.Expectations.{Expectations, expect_creation}
use kubernetes_workflow.Expectations.Laws.{pending, settled, pending-expect_creation}
use kubernetes_workflow.Manager.Race.{Phase, idle, cleared, accepted, listed, crossing, InWindow}

-- What the worker knows where it is about to create a job, of `total` jobs created, `n` of them stored.
abbrev pub Chosen : Phase → ℕ → ℕ → ℕ → Type 0
Chosen (listed []) total n crossed = (total ≤ 1) × (n ≤ crossed)
Chosen cleared total n crossed = (total ≤ 1) × (total ≤ n) × (total ≤ crossed)
Chosen p total n crossed = Unit

-- The creation of a job was expected in the window.
abbrev pub Awaited : ℕ → Option ℕ → Type 0
Awaited start none = ⊥
Awaited start (some t) = InWindow start t

-- A job that is awaited leaves nothing settled in the window.
pub not-settled :
    (start now : ℕ) (o : Option ℕ) → InWindow start now → Awaited start o → settled now o ≡ true → ⊥
not-settled start now none window awaited h = absurd awaited
not-settled start now (some t) window awaited h = ground arith

pub pending-expect_self :
    (now : ℕ) (key step : String) (store : Expectations)
    → pending (expect_creation now key step store) key step ≡ some now
pending-expect_self now key step store =
    pending-expect_creation now key step key step store ∙ simp eq_refl

abbrev pub is_accepted : Phase → Bool
is_accepted accepted = true
is_accepted p = false

-- A worker that is elsewhere is not about to expect a creation.
pub unaccepted :
    {R : Type 0} {p : Phase} (q : Phase) → p ≡ q → is_accepted q ≡ false → (p ≡ accepted) ⊎ R → R
unaccepted q e f (inl a) = absurd (cc (ap is_accepted (sym e ∙ a), f))
unaccepted q e f (inr r) = r

pub Chosen-crossing :
    (p : Phase) (total n crossed : ℕ)
    → Chosen p total n crossed
    → Chosen p total (suc n) (crossing p crossed)
Chosen-crossing idle total n crossed h = h
Chosen-crossing accepted total n crossed h = h
Chosen-crossing cleared total n crossed h = ground arith
Chosen-crossing (listed []) total n crossed h = ground arith
Chosen-crossing (listed (job ∷ jobs)) total n crossed h = h

pub crossed_more : (p : Phase) (n : ℕ) → n ≤ crossing p n
crossed_more idle n = omega arith
crossed_more accepted n = omega arith
crossed_more cleared n = omega arith
crossed_more (listed []) n = omega arith
crossed_more (listed (job ∷ jobs)) n = omega arith

-- A worker that finds the expectations settled has listed too early, or no job was created.
pub Chosen-settled :
    (start now : ℕ) (o : Option ℕ) (total n crossed : ℕ)
    → InWindow start now
    → settled now o ≡ true
    → ((total ≡ 0) ⊎ (1 ≤ n)) ⊎ Awaited start o
    → Chosen (listed []) total n crossed
    → Chosen cleared total n crossed
Chosen-settled start now o total n crossed window clear (inl (inl e)) c = ground arith
Chosen-settled start now o total n crossed window clear (inl (inr e)) c = ground arith
Chosen-settled start now o total n crossed window clear (inr a) c =
    absurd (not-settled start now o window a clear)

pub Chosen-listed :
    (jobs : List Job) (total crossed : ℕ)
    → total ≤ suc (length jobs)
    → Chosen (listed jobs) total (length jobs) crossed
Chosen-listed [] total crossed h = (omega arith, omega arith)
Chosen-listed (job ∷ jobs) total crossed h = tt
