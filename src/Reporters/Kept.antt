-- ===== src/Reporters/Kept.antt =====
-- What the results on disk and in S3 are found under.
use tobey.Common.{
  String, false, Option, none, some, if◌then◌else◌, ◌==◌, string_eq, ◌≡◌, ◌≢◌, refl, sym, ap, ◌∙◌,
  Bool-cases, inl, inr, eq_refl, eq_iff, arith, nat_eq,
}
use text.Mathlib.TextLemmas.{append_cancel_right}
use tobey.Common.Text.{◌<>◌, trim_left, has_prefix, cut_prefix, contains}
use tobey.Failure.{Error}
use tobey.Visitor.{Response}
use tobey.Reporters.{DiskConfig, S3Config}
use tobey.Reporters.Reports.{
  ReportLib, unless_error, run_dir, write_result, result_path, result_text, report_to_disk, s3_key,
}

-- A file system, as far as the reporter relies on it: making a directory changes no file, and a file
-- that was written is read back, while the others stay.
pub record FileSystem {W : Type 0} (x : ReportLib W) : Type 0 where
  pub read : String → W → Option String
  pub read-mkdir_all : (dir path : String) (w : W) → read path (x.mkdir_all dir w).0 ≡ read path w
  pub read-write_file :
      (path text other : String) (w : W)
      → (x.write_file path text w).1 ≡ none
      → read other (x.write_file path text w).0
        ≡ (if path == other then some text else read other w)

-- The name of a file in a directory, which filepath.Join has nothing to clean of.
abbrev pub IsPlain : String → Type 0
IsPlain a = (a ≢ "") × (a ≢ ".") × (a ≢ "..") × (contains a "/" ≡ false)

module _ {W : Type 0} (x : ReportLib W) (fs : FileSystem x) where
  open fs use {read}

  written :
      (text : Option String) (path other : String) (w : W)
      → (write_result x text path w).1 ≡ none
      → read other (write_result x text path w).0 ≡ (if path == other then text else read other w)
  written none path other w ok = cc ok
  written (some text) path other w ok = fs.read-write_file path text other w ok

  past :
      (a : W × Option Error) (k : W → W × Option Error)
      → (unless_error x a k).1 ≡ none
      → unless_error x a k ≡ k a.0
  past (w, some err) k ok = cc ok
  past (w, none) k ok = refl

  -- A result that is reported without an error is found in its file, and no other file has changed.
  pub read-report_to_disk :
      (config : DiskConfig) (run_id : String) (res : Response) (other : String) (w : W)
      → (report_to_disk x config run_id res w).1 ≡ none
      → read other (report_to_disk x config run_id res w).0 ≡ (
          if result_path x config run_id res == other
          then result_text x config run_id res
          else read other w)
  unfolding report_to_disk
  read-report_to_disk config run_id res other w ok =
      let w1 : W = (x.mkdir_all config.output_dir w).0 in
      let w2 : W = (x.mkdir_all (run_dir x config run_id) w1).0 in
      let text : Option String = result_text x config run_id res in
      let path : String = result_path x config run_id res in
      let first = past (x.mkdir_all config.output_dir w) _ ok in
      let second =
        past (x.mkdir_all (run_dir x config run_id) w1) _ (ap (λ a. a.1) (sym first) ∙ ok) in
      ap (λ a. read other a.0) (first ∙ second)
      ∙ written text path other w2 (ap (λ a. a.1) (sym (first ∙ second)) ∙ ok)
      ∙ ap (λ old. if path == other then text else old)
          (fs.read-mkdir_all (run_dir x config run_id) other w1
            ∙ fs.read-mkdir_all config.output_dir other w)

  paths_apart :
      (config : DiskConfig) (run_id : String) (res res' : Response)
      → config.output_content_only ≡ false
      → x.hash res.url ≢ x.hash res'.url
      → IsPlain (x.hash res.url)
      → IsPlain (x.hash res'.url)
      → ((dir a b : String) → IsPlain a → IsPlain b → x.join dir a ≡ x.join dir b → a ≡ b)
      → (result_path x config run_id res' == result_path x config run_id res) ≡ false
  unfolding result_path
  paths_apart config run_id res res' json apart plain plain' lossless =
      rw json
        (elim (Bool-cases (
          (x.join (run_dir x config run_id) (x.hash res'.url) <> ".json")
          == (x.join (run_dir x config run_id) (x.hash res.url) <> ".json"))) [
            | inl same ↦ absurd (
                apart (
                  sym (
                    lossless (run_dir x config run_id) _ _ plain' plain
                      (append_cancel_right _ _ ".json" ((eq_iff _ _).0 same)))))
            | inr other ↦ other
          ])

  -- Results of different URLs do not overwrite one another: in JSON files, the first is still found
  -- when the second has been reported, if the hash tells the URLs apart and gives plain names, and
  -- plain names that are joined to the same directory with the same path are the same.
  pub results_kept :
      (config : DiskConfig) (run_id : String) (res res' : Response) (w : W)
      → config.output_content_only ≡ false
      → x.hash res.url ≢ x.hash res'.url
      → IsPlain (x.hash res.url)
      → IsPlain (x.hash res'.url)
      → ((dir a b : String) → IsPlain a → IsPlain b → x.join dir a ≡ x.join dir b → a ≡ b)
      → (report_to_disk x config run_id res w).1 ≡ none
      → (report_to_disk x config run_id res' (report_to_disk x config run_id res w).0).1 ≡ none
      → read
          (result_path x config run_id res)
          (report_to_disk x config run_id res' (report_to_disk x config run_id res w).0).0
        ≡ result_text x config run_id res
  results_kept config run_id res res' w json apart plain plain' lossless ok ok' =
      read-report_to_disk config run_id res' (result_path x config run_id res)
        (report_to_disk x config run_id res w).0 ok'
      ∙ rw (paths_apart config run_id res res' json apart plain plain' lossless) (
          read-report_to_disk config run_id res (result_path x config run_id res) w ok
          ∙ rw (eq_refl (result_path x config run_id res)))

trim_left_clean : (s : String) → has_prefix (trim_left s "/") "/" ≡ false
unfolding trim_left has_prefix cut_prefix
trim_left_clean String.[] = refl
trim_left_clean (String.◌∷◌ c s) = ground (arith, trim_left_clean s)

module _ {W : Type 0} (x : ReportLib W) where
  -- An object's key never starts with a slash.
  pub s3_key_relative :
      (config : S3Config) (run_id : String) (res : Response)
      → has_prefix (s3_key x config run_id res) "/" ≡ false
  unfolding s3_key
  s3_key_relative config run_id res =
      trim_left_clean (x.join (x.join config.prefix run_id) (x.hash res.url <> ".json"))
