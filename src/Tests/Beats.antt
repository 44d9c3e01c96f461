-- ===== src/Tests/Beats.antt =====
-- The pulse of visits and its display at concrete inputs.
use Prim.Native.Char.{code}
use tobey.Common.{
  ℕ, zero, suc, ap, ◌==◌, nat_eq, if◌then◌else◌, String, ◌≡◌, refl, List, [], ◌∷◌, map, false,
  arith,
}
use mathlib.Core.List.{reverse}
use tobey.Common.Int.{ℤ, pos, negsuc}
use tobey.Observe.{beats, new_pulse}
use tobey.Observe.Laws.{Turn, all_beats}
use tobey.Pulse.{Widgets, Model, updates}
use tobey.Pulse.Laws.{sent, shows_last_turn}

abbrev turns : List Turn
turns = (3, 2) ∷ []

abbrev last_turn : Turn
last_turn = (1, 0)

-- A chart that remembers what was pushed.
abbrev widgets : Widgets
widgets = record {
  Chart = List ℤ;
  Spinner = ℕ;
  Mouse = ℕ;
  Tick = ℕ;
  Cmd = ℕ;
  clear_all_data = λ c. [];
  clear = λ c. c;
  draw_xy_axis_and_label = λ c. c;
  draw = λ c. c;
  draw_all = λ c. c;
  push = λ v c. v ∷ c;
  focus = λ c. c;
  blur = λ c. c;
  update_by_key = λ k c. (c, 0);
  update_by_mouse = λ e c. (c, 0);
  update_spinner = λ t s. (t, 0);
  is_press = λ e. false;
  in_bounds = λ c e. false;
}

abbrev model : Model widgets
model = record { rps = pos 0; spinner = 0; quitting = false; chart = [] }

-- Numerals as tallies, with a sign for the negative ones.
abbrev tally : ℕ → String
tally zero = ""
tally (suc n) = String.◌∷◌ "|" (tally n)

abbrev count : String → ℕ
count String.[] = 0
count (String.◌∷◌ c s) = suc (count s)

abbrev itoa : ℤ → String
itoa (pos n) = tally n
itoa (negsuc n) = String.◌∷◌ "-" (tally n)

abbrev atoi : String → ℤ
atoi String.[] = pos 0
atoi (String.◌∷◌ c s) = if code c == b'-' then negsuc (count s) else pos (suc (count s))

count-tally : (n : ℕ) → count (tally n) ≡ n
count-tally zero = refl
count-tally (suc n) = ap suc (count-tally n)

reads_back : (v : ℤ) → atoi (itoa v) ≡ v
reads_back (pos zero) = refl
reads_back (pos (suc n)) = ap (λ k. pos (suc k)) (count-tally n)
reads_back (negsuc n) = ap negsuc (count-tally n)

shows_last_turn_example :
    (updates widgets
      (map
        (sent widgets atoi itoa)
        (reverse (beats (all_beats ((3, 2) ∷ (1, 0) ∷ [])) new_pulse).posted))
      model).0.rps
    ≡ pos 1
shows_last_turn_example =
    shows_last_turn widgets atoi itoa turns last_turn model reads_back
      (omega arith, (omega arith, tt))
