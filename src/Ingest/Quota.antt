-- ===== src/Ingest/Quota.antt =====
-- A source's whole fan-out runs under its one allowance.
use mlsc.Base.{
  ◌++◌, ◌-◌, ◌==◌, refl, false, Bool-cases, subst, ◌≡◌, ℕ, ◌+◌, ◌≤◌, Option, none, some, List, [],
  ◌∷◌, All, length, length-append, arith, inl, inr,
}
use mlsc.Ingest.Plan.{Cursor, Page, Fetched, page, adapter_failed, raised, Adapter}
use mlsc.Ingest.Loop.{FanOut, fan_out_start, with_page, fan_out}

-- What an adapter may return for an allowance that is not used up. The adapters that take an item before
-- they look at the allowance return one for an allowance of zero.
abbrev pub Fits : ℕ → Fetched → Type 0
Fits remaining (page p) = length p.items ≤ remaining
Fits remaining _ = Unit

abbrev pub Respects : Adapter → Type 0
Respects adapter =
    (cursor : Cursor) (remaining : ℕ) → 1 ≤ remaining → Fits remaining (adapter cursor remaining)

abbrev Within : (quota : ℕ) → Option FanOut → Type 0
Within quota none = Unit
Within quota (some f) = length f.items + f.remaining ≤ quota

fan_out-Within :
    (quota : ℕ) (cursor : Cursor) (adapters : List Adapter) (f : FanOut)
    → All Respects adapters
    → length f.items + f.remaining ≤ quota
    → Within quota (fan_out cursor adapters f)
unfolding fan_out
fan_out-Within quota cursor [] f respects within = within
fan_out-Within quota cursor (adapter ∷ rest) f respects within =
    elim (Bool-cases (f.remaining == 0)) [
      | inl spent ↦ rw (fan_out, spent) within
      | inr left ↦
          let some_left : 1 ≤ f.remaining = ground arith in
          asked left some_left (adapter cursor f.remaining) refl
            (λ p. fan_out-Within quota cursor rest (with_page p f) respects.1)
    ]
  where
    asked :
        (f.remaining == 0) ≡ false
        → 1 ≤ f.remaining
        → (fetched : Fetched) → adapter cursor f.remaining ≡ fetched
        → ((p : Page)
            → length (f.items ++ p.items) + (f.remaining - length p.items) ≤ quota
            → Within quota (fan_out cursor rest (with_page p f)))
        → Within quota (fan_out cursor (adapter ∷ rest) f)
    asked left some_left (page p) is_fetched later =
        let fits : Fits f.remaining (page p) =
          subst (Fits f.remaining) is_fetched (respects.0 cursor f.remaining some_left) in
        rw (fan_out, left, is_fetched) (later p (omega (arith, length-append f.items p.items)))
    asked left some_left (adapter_failed failure) is_fetched later =
        rw (fan_out, left, is_fetched) within
    asked left some_left raised is_fetched later = rw (fan_out, left, is_fetched) tt

-- If no adapter returns more items than the allowance that it is given where that is positive, a fan-out over any number of
-- adapters that raises nothing collects at most the source's daily allowance.
pub fan_out-le_quota :
    (quota : ℕ) (cursor : Cursor) (adapters : List Adapter) (f : FanOut)
    → All Respects adapters
    → fan_out cursor adapters (fan_out_start quota) ≡ some f
    → length f.items ≤ quota
fan_out-le_quota quota cursor adapters f respects e =
    let within =
      subst (Within quota) e
        (fan_out-Within quota cursor adapters (fan_out_start quota) respects (omega arith)) in
    omega arith
