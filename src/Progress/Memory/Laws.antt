-- ===== src/Progress/Memory/Laws.antt =====
-- What the reporter remembers, and when it calls a run finished.
use tobey.Common.{
  ℕ, String, ◌*◌, ◌/◌, ◌-◌, ◌≤◌, ◌<◌, ◌≡◌, ◌↔◌, refl, [], ◌∷◌, true, Option, some, length, All,
  arith, ◌==◌, ◌&&◌, ltb, Bool-cases, inl, inr, nat_eq, string_eq, if◌then◌else◌, eq_iff,
}
use tobey.Common.Dict.{lookup, lookup-insert}
use tobey.Progress.{Update}
use tobey.Progress.Memory.{
  MemoryReporter, ProgressRunStats, Updates, call, or_empty, count_done, compute_progress_counts,
  compute_progress_finished_confidence, is_done, is_sure, check_finished, milliseconds,
  safety_duration,
}

-- The last update of a URL in a run.
unfoldable pub last_update : String → String → MemoryReporter → Option Update
last_update run url m = lookup url (or_empty (lookup run m.updates))

-- An update becomes the last one of its URL in its run, and of no other.
pub last_update-call :
    (pu : Update) (m : MemoryReporter) (run url : String)
    → last_update run url (call pu m) ≡ (
        if pu.run_id == run
        then if pu.url == url then some pu else last_update run url m
        else last_update run url m)
unfolding last_update call
last_update-call pu m run url = elim (Bool-cases (pu.run_id == run)) [
  | inl same ↦
      rw (lookup-insert pu.run_id run _ m.updates, same)
        (rw (
          lookup-insert pu.url url pu (or_empty (lookup pu.run_id m.updates)),
          (eq_iff pu.run_id run).0 same,
        ))
  | inr other ↦ rw (lookup-insert pu.run_id run _ m.updates, other)
]

count_done-le : (us : Updates) → count_done us ≤ length us
unfolding count_done
count_done-le [] = omega arith
count_done-le ((url, pu) ∷ us) = ground (arith, count_done-le us)

abbrev pub AllDone : Updates → Type 0
AllDone us = All (λ e. is_done e.1.status ≡ true) us

count_done-eq_iff : (us : Updates) → (length us ≡ count_done us) ↔ AllDone us
unfolding count_done
count_done-eq_iff [] = (λ _. tt, λ _. refl)
count_done-eq_iff ((url, pu) ∷ us) =
    let (to, from) = count_done-eq_iff us in
    (
      λ e. (ground (arith, count_done-le us), to (ground (arith, count_done-le us))),
      λ h. ground (arith, from h.1),
    )

sure_iff :
    (now first last count done : ℕ)
    → done ≤ count
    → ((count == done
          && ltb 0 done
          && is_sure (compute_progress_finished_confidence now first last count done))
        ≡ true)
      ↔ ((count ≡ done)
          × (0 < count)
          × (0 < milliseconds (last - first))
          × (safety_duration (milliseconds (last - first)) count ≤ milliseconds (now - last)))
unfolding compute_progress_finished_confidence
sure_iff now first last count done h = (λ e. ground arith, λ e. ground arith)

-- A run of which updates and statistics are known counts as finished exactly when each of its URLs
-- is in a final state, there is one at least, its updates span a millisecond or more, and the
-- milliseconds since the last of them are at least three times the average of that span over its
-- URLs.
pub check_finished_iff :
    (run : String) (now : ℕ) (m : MemoryReporter) (us : Updates) (s : ProgressRunStats)
    → lookup run m.updates ≡ some us
    → lookup run m.stats ≡ some s
    → (check_finished run now m ≡ true) ↔ (
        AllDone us
        × (0 < length us)
        × (0 < milliseconds (s.last_seen - s.first_seen))
        × (3 * (milliseconds (s.last_seen - s.first_seen) / length us)
            ≤ milliseconds (now - s.last_seen)))
unfolding check_finished compute_progress_counts
check_finished_iff run now m us s known timed =
    let (to, from) =
      sure_iff now s.first_seen s.last_seen (length us) (count_done us) (count_done-le us) in
    let (all, every) = count_done-eq_iff us in
    rw (known, timed, check_finished)
      (λ e. (all (to e).0, (to e).1, (to e).2, (to e).3), λ h. from (every h.0, h.1, h.2, h.3))
