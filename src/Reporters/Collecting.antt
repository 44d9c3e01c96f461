-- ===== src/Reporters/Collecting.antt =====
-- getCollectFn of run.go: what becomes of a response that a run has collected.
use tobey.Common.{Bool, not, ◌&&◌, if◌then◌else◌, ◌==◌, string_eq}
use tobey.Url.{UrlLib}
use tobey.Visitor.{Response}
use tobey.Run.{Run}
use tobey.Reporters.{PathLib, Result, ok, err, ResultReporter, create_result_reporter}
use tobey.Reporters.Reports.{ReportLib, report}

module _ (urls : UrlLib) (x : PathLib) {W : Type 0} (y : ReportLib W) where
  -- Errors are logged only.
  abbrev pub report_by : Result ResultReporter → Run → Response → W → W
  report_by (err e) run res w = w
  report_by (ok rr) run res w = (report y rr run.id res w).0

  -- `rr` is the default reporter, and `dynamic_config` the setting DynamicConfig.
  unfoldable pub collect : Bool → ResultReporter → Run → Response → W → W
  unfolding create_result_reporter report
  collect dynamic_config rr run res w =
      if dynamic_config && not (run.result_reporter_dsn == "")
      then report_by (create_result_reporter urls x dynamic_config run.result_reporter_dsn) run res
          w
      else report_by (ok rr) run res w
