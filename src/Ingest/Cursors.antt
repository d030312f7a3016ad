-- ===== src/Ingest/Cursors.antt =====
-- Which pages a fan-out collects, and where its cursor ends.
use mathlib.Core.List.{append-nil, append_assoc}
use mlsc.Base.{
  ◌≡◌, sym, ap, ◌∙◌, subst, inl, inr, ℕ, ◌≤◌, Option, none, some, true, List, [], ◌∷◌, ◌++◌, All,
  arith,
}
use mlsc.Ingest.Plan.{CollectedItem, Cursor, Page, AdapterFailure, page, adapter_failed, Adapter}
use mlsc.Ingest.Loop.{FanOut, fan_out_start, with_page, newer_cursor, fan_out}
use mlsc.Ingest.Loop.Steps.{with_failure, fan_out-Round}

-- The loop, from a state with the adapters that are left, collects these pages and ends in `final`.
pub data Collects (cursor : Cursor) (final : FanOut)
    : List Adapter → FanOut → List Page → Type 0 where
  ended : Collects cursor final [] final []
  spent :
      {adapter : Adapter} {rest : List Adapter} {f : FanOut}
      → f.remaining ≡ 0
      → final ≡ record f { allowance_reached = true }
      → Collects cursor final (adapter ∷ rest) f []
  stopped :
      {adapter : Adapter} {rest : List Adapter} {f : FanOut} (failure : AdapterFailure)
      → adapter cursor f.remaining ≡ adapter_failed failure
      → final ≡ with_failure failure f
      → Collects cursor final (adapter ∷ rest) f []
  collected :
      {adapter : Adapter} {rest : List Adapter} {f : FanOut} (p : Page) {pages : List Page}
      → adapter cursor f.remaining ≡ page p
      → Collects cursor final rest (with_page p f) pages
      → Collects cursor final (adapter ∷ rest) f (p ∷ pages)

abbrev pub items_of : List Page → List CollectedItem
items_of [] = []
items_of (p ∷ pages) = p.items ++ items_of pages

-- A watermark that stands at the other one or after it.
abbrev pub NotBehind : Option ℕ → Option ℕ → Type 0
NotBehind mark none = Unit
NotBehind none (some t) = ⊥
NotBehind (some u) (some t) = t ≤ u

abbrev pub watermark : Option Cursor → Option ℕ
watermark none = none
watermark (some cursor) = cursor.last_published_at

some_inj : {a b : FanOut} → some a ≡ some b → a ≡ b
some_inj e = cc

NotBehind-refl : (a : Option ℕ) → NotBehind a a
NotBehind-refl none = tt
NotBehind-refl (some a) = omega arith

NotBehind-trans : (a b c : Option ℕ) → NotBehind a b → NotBehind b c → NotBehind a c
NotBehind-trans a b none h k = tt
NotBehind-trans (some a) (some b) (some c) h k = omega arith
NotBehind-trans none (some b) (some c) h k = absurd h
NotBehind-trans a none (some c) h k = absurd k

newer_cursor-NotBehind :
    (current : Option Cursor) (candidate : Cursor)
    → NotBehind (watermark (newer_cursor current candidate)) candidate.last_published_at
      × NotBehind (watermark (newer_cursor current candidate)) (watermark current)
unfolding newer_cursor
newer_cursor-NotBehind none candidate = (NotBehind-refl candidate.last_published_at, tt)
newer_cursor-NotBehind (some current) candidate = ground arith

-- The pages' cursors, and the one that the loop began with, are not ahead of the one at its end.
Collects-NotBehind :
    {cursor : Cursor} {final : FanOut} {adapters : List Adapter} {f : FanOut} {pages : List Page}
    → Collects cursor final adapters f pages
    → All (λ p. NotBehind (watermark final.new_cursor) p.new_cursor.last_published_at) pages
      × NotBehind (watermark final.new_cursor) (watermark f.new_cursor)
Collects-NotBehind {final = final} ended = (tt, NotBehind-refl (watermark final.new_cursor))
Collects-NotBehind {f = f} (spent none_left e) =
    (tt, rw e (NotBehind-refl (watermark f.new_cursor)))
Collects-NotBehind {f = f} (stopped failure fetched e) =
    (tt, rw e (NotBehind-refl (watermark f.new_cursor)))
Collects-NotBehind {final = final} {f = f} (collected p fetched later) =
    let (pages_fit, state_fits) = Collects-NotBehind later in
    let (page_fits, before_fits) = newer_cursor-NotBehind f.new_cursor p.new_cursor in
    let last = watermark final.new_cursor in
    let newer = watermark (newer_cursor f.new_cursor p.new_cursor) in
    (
      (NotBehind-trans last newer p.new_cursor.last_published_at state_fits page_fits, pages_fit),
      NotBehind-trans last newer (watermark f.new_cursor) state_fits before_fits,
    )

-- The items are those of the pages, in their order.
Collects-items :
    {cursor : Cursor} {final : FanOut} {adapters : List Adapter} {f : FanOut} {pages : List Page}
    → Collects cursor final adapters f pages
    → final.items ≡ f.items ++ items_of pages
Collects-items {final = final} ended = sym (append-nil final.items)
Collects-items {f = f} (spent none_left e) = ap (λ g. g.items) e ∙ sym (append-nil f.items)
Collects-items {f = f} (stopped failure fetched e) = ap (λ g. g.items) e ∙ sym (append-nil f.items)
Collects-items {f = f} (collected p {pages} fetched later) =
    Collects-items later ∙ append_assoc f.items p.items (items_of pages)

fan_out-Collects :
    (cursor : Cursor) (adapters : List Adapter) (f final : FanOut)
    → fan_out cursor adapters f ≡ some final
    → (pages : List Page) × Collects cursor final adapters f pages
unfolding fan_out
fan_out-Collects cursor [] f final e =
    ([], subst (λ g. Collects cursor g [] f []) (some_inj e) ended)
fan_out-Collects cursor (adapter ∷ rest) f final e = elim (fan_out-Round cursor adapter rest f) [
  | inl (none_left, r) ↦ ([], spent none_left (some_inj (sym e ∙ r)))
  | inr (inl (p, fetched, r)) ↦
      let (pages, later) = fan_out-Collects cursor rest (with_page p f) final (sym r ∙ e) in
      (p ∷ pages, collected p fetched later)
  | inr (inr (inl (failure, fetched, r))) ↦ ([], stopped failure fetched (some_inj (sym e ∙ r)))
  | inr (inr (inr (fetched, r))) ↦ absurd (cc)
]

-- A fan-out that raises nothing has collected the items of some pages that its adapters returned, in
-- their order, and no page's watermark is ahead of the cursor that it ends with.
pub fan_out-le_cursor :
    (cursor : Cursor) (adapters : List Adapter) (quota : ℕ) (final : FanOut)
    → fan_out cursor adapters (fan_out_start quota) ≡ some final
    → (pages : List Page) × Collects cursor final adapters (fan_out_start quota) pages
      × (final.items ≡ items_of pages)
      × All (λ p. NotBehind (watermark final.new_cursor) p.new_cursor.last_published_at) pages
fan_out-le_cursor cursor adapters quota final e =
    let (pages, trace) = fan_out-Collects cursor adapters (fan_out_start quota) final e in
    (pages, trace, Collects-items trace, (Collects-NotBehind trace).0)
