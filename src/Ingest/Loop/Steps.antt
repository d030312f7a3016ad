-- ===== src/Ingest/Loop/Steps.antt =====
-- One round of the loop over the adapters.
use mlsc.Base.{
  ==_iff, ◌≡◌, refl, ◌⊎◌, inl, inr, Option, none, some, true, List, ◌∷◌, ◌==◌, Bool-cases,
}
use mlsc.Ingest.Plan.{Cursor, Page, AdapterFailure, Fetched, page, adapter_failed, raised, Adapter}
use mlsc.Ingest.Loop.{FanOut, with_page, failure_text, is_validation_failure, fan_out}

abbrev pub with_failure : AdapterFailure → FanOut → FanOut
with_failure failure f = record f {
  error = some (failure_text failure);
  validation_failed = is_validation_failure failure;
}

-- What the next round does: it stops, goes on with a page, stops at a failure, or raises.
abbrev pub Round : Cursor → Adapter → List Adapter → FanOut → Option FanOut → Type 0
Round cursor adapter rest f result =
    ((f.remaining ≡ 0) × (result ≡ some (record f { allowance_reached = true })))
    ⊎ (((p : Page) × (adapter cursor f.remaining ≡ page p)
          × (result ≡ fan_out cursor rest (with_page p f)))
        ⊎ (((failure : AdapterFailure) × (adapter cursor f.remaining ≡ adapter_failed failure)
              × (result ≡ some (with_failure failure f)))
            ⊎ ((adapter cursor f.remaining ≡ raised) × (result ≡ none))))

Fetched-cases :
    (x : Fetched)
    → ((p : Page) × (x ≡ page p))
      ⊎ (((failure : AdapterFailure) × (x ≡ adapter_failed failure)) ⊎ (x ≡ raised))
Fetched-cases (page p) = inl (p, refl)
Fetched-cases (adapter_failed failure) = inr (inl (failure, refl))
Fetched-cases raised = inr (inr refl)

pub fan_out-Round :
    (cursor : Cursor) (adapter : Adapter) (rest : List Adapter) (f : FanOut)
    → Round cursor adapter rest f (fan_out cursor (adapter ∷ rest) f)
unfolding fan_out
fan_out-Round cursor adapter rest f = elim (Bool-cases (f.remaining == 0)) [
  | inl spent ↦ inl ((==_iff f.remaining 0).0 spent, rw spent refl)
  | inr left ↦ elim (Fetched-cases (adapter cursor f.remaining)) [
    | inl (p, e) ↦ inr (inl (p, e, rw left (rw e refl)))
    | inr (inl (failure, e)) ↦ inr (inr (inl (failure, e, rw left (rw e refl))))
    | inr (inr e) ↦ inr (inr (inr (e, rw left (rw e refl))))
  ]
]
