-- ===== src/Reporters/Laws.antt =====
-- Which directories a DSN may name.
use tobey.Common.{
  String, true, false, some, ◌≡◌, ◌∙◌, sym, ap, subst, inl, inr, Option-cases, Bool-cases,
  string_eq,
}
use tobey.Common.Text.{◌<>◌, has_prefix, has_prefix-append}
use tobey.Url.{Url, UrlLib}
use tobey.Reporters.{
  PathLib, DiskConfig, Result, ok, err, disk_config, directory_of, new_disk_config_from_dsn,
}

output_dir_of : Result DiskConfig → String
output_dir_of (ok config) = config.output_dir
output_dir_of (err _) = ""

module _ (urls : UrlLib) (x : PathLib) where
  disk_config-prefix :
      (wd dir : String) (config : DiskConfig)
      → disk_config urls x true wd dir ≡ ok config
      → has_prefix config.output_dir wd ≡ true
  unfolding output_dir_of
  disk_config-prefix wd dir config e = elim (Bool-cases (has_prefix dir wd)) [
    | inl below ↦
        let made : disk_config urls x true wd dir
            ≡ ok record { output_dir = dir; output_content_only = false } =
          rw below in
        subst (λ d. has_prefix d wd ≡ true) (ap output_dir_of (sym made ∙ e)) below
    | inr outside ↦ cc (rw outside at e)
  ]

  -- With dynamic configuration, the directory of a configuration that is accepted has the working
  -- directory as a prefix.
  constrained_directory :
      (dsn wd : String) (config : DiskConfig)
      → x.working_directory ≡ some wd
      → new_disk_config_from_dsn urls x dsn true ≡ ok config
      → has_prefix config.output_dir wd ≡ true
  unfolding new_disk_config_from_dsn
  constrained_directory dsn wd config here e = elim (Option-cases (urls.parse dsn)) [
    | inl bad ↦ cc (rw (bad, new_disk_config_from_dsn) at e)
    | inr (u, parsed) ↦ elim (Option-cases (x.abs (directory_of urls x u))) [
      | inl lost ↦ cc (rw (parsed, here, lost, new_disk_config_from_dsn) at e)
      | inr (dir, found) ↦
          disk_config-prefix wd dir config (rw (parsed, here, found, new_disk_config_from_dsn) at e)
    ]
  ]

  -- With dynamic configuration, a directory whose absolute path continues the text of the working
  -- directory's is accepted, even if it lies beside the working directory.
  pub sibling_accepted :
      (dsn wd rest : String) (u : Url)
      → urls.parse dsn ≡ some u
      → x.working_directory ≡ some wd
      → x.abs (directory_of urls x u) ≡ some (wd <> rest)
      → new_disk_config_from_dsn urls x dsn true
        ≡ ok record { output_dir = wd <> rest; output_content_only = false }
  unfolding new_disk_config_from_dsn
  sibling_accepted dsn wd rest u parsed here found =
      rw (parsed, here, found, new_disk_config_from_dsn, has_prefix-append wd rest)
