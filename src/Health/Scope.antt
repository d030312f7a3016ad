-- ===== src/Health/Scope.antt =====
-- What an evaluation of a run touches.
use mlsc.Base.{
  ◌≡◌, refl, ◌∙◌, ℕ, ◌+◌, ◌≤◌, Option, none, some, false, ◌&&◌, List, [], ◌∷◌, length, filter, any,
  All, arith, update, ◌==◌, Bool-cases, inl, inr,
}
use mlsc.Models.{MonitorSource, FetchStats, SourceHealth, AlertKind}
use mlsc.Ingest.{find_source}
use mlsc.Health.{HealthWorld, alerted, assess, assess_all, evaluate_source_health}

-- The source has no row in the list.
abbrev pub Absent : ℕ → List FetchStats → Type 0
Absent id rows = All (λ s. (id == s.monitor_source_id) ≡ false) rows

-- The evaluation of some rows: the health of absent sources stays, each row raises at most one alert.
abbrev pub Scoped : List FetchStats → HealthWorld → Option HealthWorld → Type 0
Scoped rows w none = Unit
Scoped rows w (some w') =
    ((id : ℕ) → Absent id rows → w'.health id ≡ w.health id)
    × (length w'.alerts ≤ length w.alerts + length rows)

alerted-Scoped :
    (s : FetchStats) (saved : SourceHealth) (w : HealthWorld) (kind : Option AlertKind)
    (source : Option MonitorSource)
    → Scoped (s ∷ []) w (
        alerted s saved
          (record w { health = update w.health s.monitor_source_id (some saved) })
          kind
          source)
alerted-Scoped s saved w none source = (λ id absent. rw (absent.0) refl, omega arith)
alerted-Scoped s saved w (some kind) none = tt
alerted-Scoped s saved w (some kind) (some source) = (λ id absent. rw (absent.0) refl, omega arith)

assess-Scoped : (s : FetchStats) (w : HealthWorld) → Scoped (s ∷ []) w (assess s w)
unfolding assess
assess-Scoped s w = alerted-Scoped s _ w _ (find_source s.monitor_source_id w.sources)

Scoped-trans :
    (s : FetchStats) (rest : List FetchStats) (w w' : HealthWorld) (last : Option HealthWorld)
    → Scoped (s ∷ []) w (some w')
    → Scoped rest w' last
    → Scoped (s ∷ rest) w last
Scoped-trans s rest w w' none first later = tt
Scoped-trans s rest w w' (some w'') (kept, few) (kept_later, few_later) =
    (λ id absent. kept_later id absent.1 ∙ kept id (absent.0, tt), omega arith)

Scoped-cons :
    (s : FetchStats) (rest : List FetchStats) (w : HealthWorld) (first : Option HealthWorld)
    → Scoped (s ∷ []) w first
    → ((w' : HealthWorld) → Scoped rest w' (assess_all rest w'))
    → Scoped (s ∷ rest) w (elim first [ none ↦ none | some w' ↦ assess_all rest w' ])
Scoped-cons s rest w none scoped later = tt
Scoped-cons s rest w (some w') scoped later =
    Scoped-trans s rest w w' (assess_all rest w') scoped (later w')

assess_all-Scoped : (rows : List FetchStats) (w : HealthWorld) → Scoped rows w (assess_all rows w)
unfolding assess_all
assess_all-Scoped [] w = (λ id absent. refl, omega arith)
assess_all-Scoped (s ∷ rest) w =
    Scoped-cons s rest w (assess s w) (assess-Scoped s w) (λ w'. assess_all-Scoped rest w')

filter-Absent :
    (id run_id : ℕ) (stats : List FetchStats)
    → any (λ s. (s.run_id == run_id) && (id == s.monitor_source_id)) stats ≡ false
    → Absent id (filter (λ s. s.run_id == run_id) stats)
filter-Absent id run_id [] h = tt
filter-Absent id run_id (s ∷ rest) h = elim (Bool-cases (s.run_id == run_id)) [
  | inl own ↦ rw own (ground arith, filter-Absent id run_id rest (ground arith))
  | inr other ↦ rw other (filter-Absent id run_id rest (ground arith))
]

abbrev pub EvaluatedScope : (run_id : ℕ) → HealthWorld → Option HealthWorld → Type 0
EvaluatedScope run_id w none = Unit
EvaluatedScope run_id w (some w') =
    ((id : ℕ)
      → any (λ s. (s.run_id == run_id) && (id == s.monitor_source_id)) w.stats ≡ false
      → w'.health id ≡ w.health id)
    × (length w'.alerts ≤ length w.alerts + length (filter (λ s. s.run_id == run_id) w.stats))

-- If the evaluation of a run raises nothing, then the health of a source without a row for the run
-- stays as it was, and at most one alert is raised for each row of the run.
pub evaluate_source_health-EvaluatedScope :
    (run_id : ℕ) (w : HealthWorld) → EvaluatedScope run_id w (evaluate_source_health run_id w)
unfolding evaluate_source_health
evaluate_source_health-EvaluatedScope run_id w =
    widen (assess_all rows w) (assess_all-Scoped rows w)
  where
    rows : List FetchStats
    rows = filter (λ s. s.run_id == run_id) w.stats

    widen :
        (last : Option HealthWorld)
        → Scoped (filter (λ s. s.run_id == run_id) w.stats) w last
        → EvaluatedScope run_id w last
    widen none scoped = tt
    widen (some w') (kept, few) =
        (λ id none_there. kept id (filter-Absent id run_id w.stats none_there), few)
