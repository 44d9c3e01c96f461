-- ===== src/Tests/Reports.antt =====
-- The reporters, and a run that brings one along, at concrete inputs.
use text.Mathlib.TextLemmas.{append_cancel_left}
use tobey.Common.{
  String, false, true, [], Option, none, some, ◌≡◌, ◌≢◌, refl, if◌then◌else◌, ◌==◌, string_eq,
  eq_iff, sym, ◌∙◌,
}
use tobey.Common.Text.{◌<>◌, contains}
use tobey.Visitor.{Response}
use tobey.Reporters.{DiskConfig}
use tobey.Reporters.Reports.{ReportLib, report_to_disk, result_path, result_text}
use tobey.Reporters.Kept.{IsPlain, FileSystem, results_kept}

-- A file system that takes every write.
abbrev Files : Type 0
Files = String → Option String

abbrev disk : ReportLib Files
disk = record {
  hash = λ s. s;
  join = λ dir p. dir <> p;
  extensions = λ t. [];
  marshal = λ r. some r.response_body;
  marshal_action = λ a r. none;
  mkdir_all = λ dir w. (w, none);
  write_file = λ path text w. ((λ p. if path == p then some text else w p), none);
  is_request_url = λ u. true;
  go_post = λ u body w. w;
  load_config = λ c w. (w, none);
  put_object = λ c key text w. (w, none);
}

abbrev files : FileSystem disk
files = record {
  read = λ path w. w path;
  read-mkdir_all = λ dir path w. refl;
  read-write_file = λ path text other w ok. refl;
}

abbrev config : DiskConfig
config = record { output_dir = "out/"; output_content_only = false }

abbrev page_at : String → String → Response
page_at url body = record { status_code = 200; headers = []; url = url; body = body; took = 1 }

abbrev after : Response → Files → Files
after res w = (report_to_disk disk config "r/" res w).0

urls_apart : ◌≢◌ {A = String} "u" "v"
urls_apart e = cc ((eq_iff "u" "v").1 e)

name-IsPlain :
    (a : String)
    → (a == "") ≡ false
    → (a == ".") ≡ false
    → (a == "..") ≡ false
    → contains a "/" ≡ false
    → IsPlain a
name-IsPlain a empty dot dots slash = (
  λ e. cc (sym ((eq_iff a "").1 e) ∙ empty),
  λ e. cc (sym ((eq_iff a ".").1 e) ∙ dot),
  λ e. cc (sym ((eq_iff a "..").1 e) ∙ dots),
  slash,
)

results_kept_example :
    after
      (page_at "v" "two")
      (after (page_at "u" "one") (λ p. none))
      (result_path disk config "r/" (page_at "u" "one"))
    ≡ result_text disk config "r/" (page_at "u" "one")
unfolding report_to_disk contains
results_kept_example =
    results_kept disk files config "r/" (page_at "u" "one") (page_at "v" "two") (λ p. none) refl
      urls_apart (name-IsPlain "u" refl refl refl refl) (name-IsPlain "v" refl refl refl refl)
      (λ dir a b plain plain' e. append_cancel_left dir a b e) refl refl
