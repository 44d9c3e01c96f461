-- ===== src/Console/Laws.antt =====
-- The command line's run and directory.
use tobey.Common.{
  String, true, Option, none, some, ◌>>=◌, ◌==◌, string_eq, ◌≡◌, Bool-cases, Option-cases, inl, inr,
  ◌∙◌, ap, subst, >>=-eq-some,
}
use mathlib.Core.Option.{some-injective}
use tobey.Common.Text.{has_prefix, has_prefix_self}
use tobey.Url.{UrlLib}
use tobey.Run.{Run}
use tobey.Api.{UuidLib, new_run, get_run, get_urls, validate}
use tobey.Console.{
  ConsoleRequest, PathLib, or_empty, below, validate_console, get_output_dir, console_run,
}

module _ (urls : UrlLib) (ids : UuidLib) (x : PathLib) where
  -- The command line makes the same run of a request as the API does, but for the content-only
  -- setting, which the API has no field for.
  pub console_run-new_run :
      (default_agent : String) (req : ConsoleRequest)
      → console_run urls ids x default_agent req ≡ (
          new_run urls ids default_agent "" "" req.request >>= λ run.
          some (record run { output_content_only = req.output_content_only }))
  unfolding console_run new_run
  console_run-new_run default_agent req = elim (Option-cases (get_run ids req.request)) [
    | inl bad ↦ rw bad
    | inr (id, known) ↦ elim (Option-cases (get_urls urls true req.request)) [
      | inl bad ↦ rw (known, bad)
      | inr (us, cleaned) ↦ rw (known, cleaned)
    ]
  ]

  below_abs :
      (dir : String) (wd : String) (a w : Option String)
      → w ≡ some wd
      → below urls ids x a w ≡ true
      → has_prefix (or_empty a) wd ≡ true
  below_abs dir wd none w here h = cc h
  below_abs dir wd (some abs) none here h = cc h
  below_abs dir wd (some abs) (some d) here h =
      subst (λ v. has_prefix abs v ≡ true) (some-injective d wd here) h

  -- Where the working directory is known, and is what the path "." is resolved to, the directory of a
  -- request that validates starts with the working directory's path.
  pub output_dir_below :
      (req : ConsoleRequest) (wd : String)
      → x.getwd ≡ some wd
      → x.abs "." ≡ some wd
      → validate_console urls ids x req ≡ true
      → has_prefix (get_output_dir urls ids x req) wd ≡ true
  unfolding validate_console get_output_dir
  output_dir_below req wd here dot valid = elim (Bool-cases (validate urls ids req.request)) [
    | inl ok ↦ elim (Bool-cases (req.output_dir == "")) [
      | inl empty ↦ rw (empty, dot) (has_prefix_self wd)
      | inr given ↦ rw given (
          below_abs req.output_dir wd (x.abs req.output_dir) x.getwd here (rw (ok, given) at valid))
    ]
    | inr bad ↦ cc (rw bad at valid)
  ]

  console_run-urls :
      (default_agent : String) (req : ConsoleRequest) (run : Run)
      → console_run urls ids x default_agent req ≡ some run
      → get_urls urls true req.request ≡ some run.urls
  unfolding console_run
  console_run-urls default_agent req run made =
      let (id, known, made') = >>=-eq-some (get_run ids req.request) _ made in
      let (us, cleaned, made'') = >>=-eq-some (get_urls urls true req.request) _ made' in
      cleaned ∙ ap (λ r. some r.urls) (some-injective _ run made'')
