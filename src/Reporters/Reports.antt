-- ===== src/Reporters/Reports.antt =====
-- ReportToDisk, ReportToWebhook and ReportToS3 of internal/result. The file system, the S3 service,
-- hashing, paths, MIME types and JSON are parameters.
use tobey.Common.{
  ℕ, String, List, [], ◌∷◌, Bool, Option, none, some, if◌then◌else◌, ◌==◌, string_eq,
}
use tobey.Common.Text.{◌<>◌, trim_left}
use tobey.Headers.{get}
use tobey.Failure.{Error}
use tobey.Visitor.{Response}
use tobey.Reporters.{DiskConfig, S3Config, ResultReporter, disk, webhook, s3, noop}

-- diskResult, webhookResult and s3Result, which have the same fields. The metadata is never set.
pub record ResultData : Type 0 where
  pub run : String
  pub request_url : String
  pub response_body : String
  pub response_status_code : ℕ

unfoldable pub result_of : String → Response → ResultData
result_of run_id res = record {
  run = run_id;
  request_url = res.url;
  response_body = res.body;
  response_status_code = res.status_code;
}

pub record ReportLib (W : Type 0) : Type 0 where
  -- hex.EncodeToString of the SHA-256 digest of a text
  pub hash : String → String
  -- filepath.Join
  pub join : String → String → String
  -- mime.ExtensionsByType, empty on an error
  pub extensions : String → List String
  -- json.MarshalIndent of a result, and json.Marshal of one with its action; `none` is an error.
  pub marshal : ResultData → Option String
  pub marshal_action : String → ResultData → Option String
  -- os.MkdirAll and os.WriteFile, with their errors
  pub mkdir_all : String → W → W × Option Error
  pub write_file : String → String → W → W × Option Error
  -- Whether http.NewRequestWithContext takes the endpoint, and a goroutine that posts a body to it.
  pub is_request_url : String → Bool
  pub go_post : String → String → W → W
  -- LoadDefaultConfig fails or not; PutObject to a bucket, by the client for the configuration.
  pub load_config : S3Config → W → W × Option Error
  pub put_object : S3Config → String → String → W → W × Option Error

module _ {W : Type 0} (x : ReportLib W) where
  -- `k` goes on unless there was an error.
  abbrev pub unless_error : W × Option Error → (W → W × Option Error) → W × Option Error
  unless_error (w, some err) k = (w, some err)
  unless_error (w, none) k = k w

  abbrev first_extension : List String → String
  first_extension [] = ""
  first_extension (e ∷ es) = e

  unfoldable pub extension_of : Response → String
  unfolding get
  extension_of res =
      if get "Content-Type" res.headers == ""
      then ""
      else first_extension (x.extensions (get "Content-Type" res.headers))

  abbrev pub run_dir : DiskConfig → String → String
  run_dir config run_id = x.join config.output_dir run_id

  -- The path of a result.
  unfoldable pub result_path : DiskConfig → String → Response → String
  unfolding extension_of
  result_path config run_id res =
      x.join (run_dir config run_id) (x.hash res.url)
      <> (if config.output_content_only then extension_of res else ".json")

  abbrev pub write_result : Option String → String → W → W × Option Error
  write_result none path w = (w, some (Error.other "json"))
  write_result (some text) path w = x.write_file path text w

  -- What is written there; `none` if it cannot be made.
  unfoldable pub result_text : DiskConfig → String → Response → Option String
  unfolding result_of
  result_text config run_id res =
      if config.output_content_only then some res.body else x.marshal (result_of run_id res)

  unfoldable pub report_to_disk : DiskConfig → String → Response → W → W × Option Error
  unfolding result_path result_text
  report_to_disk config run_id res w = unless_error (x.mkdir_all config.output_dir w) λ w1.
      unless_error (x.mkdir_all (run_dir config run_id) w1)
        λ w2. write_result (result_text config run_id res) (result_path config run_id res) w2

  abbrev pub post_body : Option String → String → W → W × Option Error
  post_body none endpoint w = (w, some (Error.other "json"))
  post_body (some body) endpoint w =
      if x.is_request_url endpoint
      then (x.go_post endpoint body w, none)
      else (w, some (Error.other "parse"))

  unfoldable pub report_to_webhook : String → String → Response → W → W × Option Error
  unfolding result_of
  report_to_webhook endpoint run_id res w =
      post_body (x.marshal_action "collector.response" (result_of run_id res)) endpoint w

  unfoldable pub s3_key : S3Config → String → Response → String
  unfolding trim_left
  s3_key config run_id res =
      trim_left (x.join (x.join config.prefix run_id) (x.hash res.url <> ".json")) "/"

  abbrev pub put_result : S3Config → String → Option String → W → W × Option Error
  put_result config key none w = (w, some (Error.other "json"))
  put_result config key (some text) w = x.put_object config key text w

  unfoldable pub report_to_s3 : S3Config → String → Response → W → W × Option Error
  unfolding result_of s3_key
  report_to_s3 config run_id res w =
      unless_error (x.load_config config w)
        λ w1. put_result config (s3_key config run_id res) (x.marshal (result_of run_id res)) w1

  -- The reporter that CreateResultReporter chooses, called.
  unfoldable pub report : ResultReporter → String → Response → W → W × Option Error
  unfolding report_to_disk report_to_webhook report_to_s3
  report (disk config) run_id res w = report_to_disk config run_id res w
  report (webhook endpoint) run_id res w = report_to_webhook endpoint run_id res w
  report (s3 config) run_id res w = report_to_s3 config run_id res w
  report noop run_id res w = (w, none)
