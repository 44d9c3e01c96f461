-- ===== src/Pulse.antt =====
-- cmd/pulse/main.go: the display of the requests per second, and the endpoint that receives them.
-- The chart, the spinner and the zones of the terminal packages are parameters, as is strconv.Atoi.
pub mod Laws
use tobey.Common.{String, List, [], ◌∷◌, Bool, true, false, ◌||◌, if◌then◌else◌, ◌==◌, string_eq}
use tobey.Common.Int.{ℤ, pos}

pub record Widgets : Type 1 where
  pub Chart : Type 0
  pub Spinner : Type 0
  pub Mouse : Type 0
  pub Tick : Type 0
  -- What a widget's Update asks the program to do.
  pub Cmd : Type 0
  pub clear_all_data : Chart → Chart
  pub clear : Chart → Chart
  pub draw_xy_axis_and_label : Chart → Chart
  pub draw : Chart → Chart
  pub draw_all : Chart → Chart
  pub push : ℤ → Chart → Chart
  pub focus : Chart → Chart
  pub blur : Chart → Chart
  pub update_by_key : String → Chart → Chart × Cmd
  pub update_by_mouse : Mouse → Chart → Chart × Cmd
  pub update_spinner : Tick → Spinner → Spinner × Cmd
  -- Action == MouseActionPress, and InBounds of the chart's zone
  pub is_press : Mouse → Bool
  pub in_bounds : Chart → Mouse → Bool

-- What Update returns besides the model.
pub data Command (C : Type 0) : Type 0 where
  quit nothing wait_for_activity : Command C
  of_widget : C → Command C

module _ (x : Widgets) where
  open x use {Chart, Spinner, Mouse, Tick, Cmd}

  pub record Model : Type 0 where
    pub rps : ℤ
    pub spinner : Spinner
    pub quitting : Bool
    pub chart : Chart

  pub data Msg : Type 0 where
    key : String → Msg
    mouse : Mouse → Msg
    number : ℤ → Msg
    tick : Tick → Msg
    other : Msg

  abbrev reset_chart : Chart → Chart
  reset_chart c = x.draw_xy_axis_and_label (x.clear (x.clear_all_data c))

  abbrev on_key : String → Model → Model × Command Cmd
  on_key k m =
      if k == "q" || k == "ctrl+c"
      then (record m { quitting = true }, quit)
      else if k == "r"
      then (record m { chart = reset_chart m.chart }, nothing)
      else (
        record m { chart = x.draw_all (x.update_by_key k m.chart).0 },
        of_widget (x.update_by_key k m.chart).1,
      )

  abbrev focused : Mouse → Chart → Chart
  focused e c = if x.is_press e then (if x.in_bounds c e then x.focus c else x.blur c) else c

  abbrev on_mouse : Mouse → Model → Model × Command Cmd
  on_mouse e m =
      let (c, cmd) = x.update_by_mouse e (focused e m.chart) in
      (record m { chart = x.draw_all c }, of_widget cmd)

  -- Update
  unfoldable pub update : Msg → Model → Model × Command Cmd
  update (key k) m = on_key k m
  update (mouse e) m = on_mouse e m
  update (number v) m = (record m { rps = v; chart = x.draw (x.push v m.chart) }, wait_for_activity)
  update (tick t) m =
      let (s, cmd) = x.update_spinner t m.spinner in (record m { spinner = s }, of_widget cmd)
  update other m = (m, nothing)

  -- Messages one after another, with the commands that they lead to.
  unfoldable pub updates : List Msg → Model → Model × List (Command Cmd)
  unfolding update
  updates [] m = (m, [])
  updates (msg ∷ msgs) m =
      let (m1, cmd) = update msg m in let (m2, cmds) = updates msgs m1 in (m2, cmd ∷ cmds)

  -- The handler of POST /rps, for the body that was read: what it sends over the channel. Atoi's
  -- value is taken whether there was an error or not.
  unfoldable pub receive : (String → ℤ) → String → Msg
  receive atoi body = number (atoi body)
