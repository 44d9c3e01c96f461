-- ===== src/Config/Laws.antt =====
-- Which of a flag, a variable and a default has its way.
use tobey.Common.{
  String, List, ◌∷◌, true, false, none, some, ◌>>=◌, if◌then◌else◌, ◌==◌, string_eq, ◌≡◌, inl, inr,
  Option-cases, All, Returns, Returns-bind, Returns-any,
}
use tobey.Common.Int.{is_zero}
use tobey.Common.Split.{join, free_of, split-join}
use tobey.Config.{
  Flags, Settings, ConfigLib, value_of, passed, comma, as_service, switch, configure_port,
  configure_workers, configure_host, configure_agent, configure_request, configure,
}

-- The environment in which one variable has another value.
abbrev pub with_variable : String → String → (String → String) → String → String
with_variable name v env j = if name == j then v else env j

module _ (x : ConfigLib) where
  -- Unless the flag -port asks for port 0, the variable TOBEY_PORT changes nothing: neither the
  -- port, nor, if it holds no number, whether the program panics.
  pub port_variable_ignored :
      (flags : Flags) (env : String → String) (g : Settings) (v : String)
      → is_zero (value_of g.listen_port flags.port) ≡ false
      → configure x flags (with_variable "TOBEY_PORT" v env) g ≡ configure x flags env g
  unfolding configure switch configure_port configure_workers configure_host configure_agent
      configure_request
  port_variable_ignored flags env g v given = rw given

  -- What a flag is to be passed as for its variable not to be read.
  pub record AllPassed (flags : Flags) (g : Settings) : Type 0 where
    pub debug : passed flags.debug ≡ true
    pub no_cache : passed flags.no_cache ≡ true
    pub host : (value_of g.listen_host flags.host == "") ≡ false
    pub port : is_zero (value_of g.listen_port flags.port) ≡ false
    pub workers : passed flags.workers ≡ true
    pub agent : passed flags.user_agent ≡ true
    pub dynamic : passed flags.dynamic_config ≡ true
    pub telemetry : passed flags.telemetry ≡ true

  -- On the command line, flags go before variables: if every flag that has a variable is passed, the
  -- host not empty and the port not 0, then the outcome is the same in every environment.
  pub flags_decide :
      (flags : Flags) (env env' : String → String) (g : Settings)
      → AllPassed flags g
      → as_service x flags ≡ false
      → configure x flags env g ≡ configure x flags env' g
  unfolding configure switch configure_port configure_workers configure_host configure_agent
      configure_request
  flags_decide flags env env' g all cli = rw (
    all.debug, all.no_cache, all.host, all.port, all.workers, all.agent, all.dynamic, all.telemetry,
    cli,
  )

  -- In a service, the flag -ua sets no more than the user agent of a request that the service does
  -- not read: the settings are as they would be without the flag.
  pub service_agent_ignored :
      (flags : Flags) (env : String → String) (g : Settings) (agent : String)
      → as_service x flags ≡ true
      → (configure x (record flags { user_agent = some agent }) env g >>= λ (d, req, s). some s)
        ≡ (configure x (record flags { user_agent = none }) env g >>= λ (d, req, s). some s)
  unfolding configure configure_port configure_workers configure_agent configure_host
      configure_request
  service_agent_ignored flags env g agent service =
      elim (Option-cases (configure_port x flags env g)) [
        | inl bad ↦ rw bad
        | inr (port, read) ↦ elim (Option-cases (configure_workers x flags env g)) [
          | inl bad ↦ rw (read, bad)
          | inr (workers, known) ↦ rw (read, known, service)
        ]
      ]

  -- Where the program does not panic, the URLs that were joined by commas for the flag -u are those of
  -- the request again, if none of them has a comma.
  pub urls_from_flag :
      (flags : Flags) (env : String → String) (g : Settings) (u : String) (us : List String)
      → All (λ v. free_of comma v ≡ true) (u ∷ us)
      → Returns
          (λ (d, req, s). req.request.urls ≡ u ∷ us)
          (configure x (record flags { urls = some (join comma (u ∷ us)) }) env g)
  unfolding configure configure_request
  urls_from_flag flags env g u us free =
      Returns-bind (λ _. Unit {0}) _ (configure_port x flags env g) _ (Returns-any _)
        λ port _.
          Returns-bind (λ _. Unit {0}) _ (configure_workers x flags env g) _ (Returns-any _)
            λ workers _. split-join comma u us free
