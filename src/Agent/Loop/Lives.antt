-- ===== src/Agent/Loop/Lives.antt =====
-- The reports that an agent keeps, provider by provider (`storeCollectionResult` of
-- internal/agent/agent.go).
use codex_claude_monitor.Prelude.{
  String, true, Option, some, List, [], ◌∷◌, keep, All, ◌==◌, if◌then◌else◌, ◌≡◌, refl, sym, ap,
  ◌∙◌, subst, eq_iff, inl, inr, Bool-cases,
}
use codex_claude_monitor.Prelude.GoMap.{lookup, lookup-insert}
use codex_claude_monitor.Model.{ProviderReport}
use codex_claude_monitor.Agent.Loop.{
  Agent, CollectionResult, has_windows, or_failed, stored_report, after_failure,
  store_collection_result, collect_concurrently,
}

-- What becomes of the report of a provider with its results, one after the other.
abbrev pub life : Option ProviderReport → List CollectionResult → Option ProviderReport
unfolding stored_report
life report [] = report
life report (item ∷ results) = life (some (stored_report report item)) results

abbrev pub results_of : String → List CollectionResult → List CollectionResult
results_of provider results = keep (λ item. item.provider == provider) results

lookup-store_collection_result :
    (k : String) (item : CollectionResult) (a : Agent)
    → lookup k (store_collection_result item a).providers ≡ (
        if item.provider == k
        then some (stored_report (lookup item.provider a.providers) item)
        else lookup k a.providers)
unfolding store_collection_result
lookup-store_collection_result k item a = lookup-insert item.provider k _ a.providers

-- The report of each provider depends on its own results only, in the order in which they came in:
-- how the results of different providers are interleaved makes no difference.
pub lookup-collect_concurrently :
    (k : String) (results : List CollectionResult) (a : Agent)
    → lookup k (collect_concurrently results a).providers
      ≡ life (lookup k a.providers) (results_of k results)
unfolding collect_concurrently life
lookup-collect_concurrently k [] a = refl
lookup-collect_concurrently k (item ∷ results) a =
    let ih = lookup-collect_concurrently k results (store_collection_result item a) in
    let stored = lookup-store_collection_result k item a in
    elim (Bool-cases (item.provider == k)) [
      | inl hit ↦
          let same = (eq_iff item.provider k).0 hit in
          rw hit (
            ih
            ∙ ap (λ r. life r (results_of k results))
                ((rw hit at stored)
                  ∙ ap (λ j. some (stored_report (lookup j a.providers) item)) same))
      | inr miss ↦ rw miss (ih ∙ ap (λ r. life r (results_of k results)) (rw miss at stored))
    ]

abbrev Failed : CollectionResult → Type 0
Failed item = item.failed ≡ true

-- A report that has windows, with another error code, has them still.
abbrev pub Retained : ProviderReport → Option ProviderReport → Type 0
Retained previous r = (code : String) × (r ≡ some (record previous { error_code = code }))

life-Retained :
    (previous : ProviderReport) (code : String) (results : List CollectionResult)
    → has_windows previous ≡ true
    → All Failed results
    → Retained previous (life (some (record previous { error_code = code })) results)
unfolding life after_failure
life-Retained previous code [] some_window h = (code, refl)
life-Retained previous code (item ∷ results) some_window (failed, h) =
    rw (failed, some_window)
      (life-Retained previous (or_failed item.report.error_code) results some_window h)

-- However many collections of a provider fail in a row, whatever other providers do: the report of
-- a provider that has a window stays as it is, but for the error code.
pub failures-Retained :
    (k : String) (results : List CollectionResult) (a : Agent) (previous : ProviderReport)
    → lookup k a.providers ≡ some previous
    → has_windows previous ≡ true
    → All Failed (results_of k results)
    → Retained previous (lookup k (collect_concurrently results a).providers)
failures-Retained k results a previous here some_window h =
    subst (Retained previous)
      (sym (lookup-collect_concurrently k results a ∙ ap (λ r. life r (results_of k results)) here))
      (life-Retained previous previous.error_code (results_of k results) some_window h)
